-- ===== src/Metrics.antt =====
-- src/metrics.rs: the host's counters. An `AtomicU64` wraps at 2 ^ 64, and every method is one
-- atomic addition.
use ce_pin.Prelude.{ℕ, ◌+◌, ◌%◌, ◌^◌}

-- `HostMetrics`
pub record HostMetrics : Type 0 where
  pub offers_accepted : ℕ
  pub offers_declined : ℕ
  pub offers_failed : ℕ
  pub audits_passed : ℕ
  pub audits_failed : ℕ
  pub releases : ℕ
  pub gc_evictions : ℕ
  pub auth_denied : ℕ

-- `HostMetrics::new`
abbrev pub new_metrics : HostMetrics
new_metrics = record {
  offers_accepted = 0;
  offers_declined = 0;
  offers_failed = 0;
  audits_passed = 0;
  audits_failed = 0;
  releases = 0;
  gc_evictions = 0;
  auth_denied = 0;
}

-- `fetch_add`
abbrev pub fetch_add : ℕ → ℕ → ℕ
fetch_add c n = (c + n) % 2 ^ 64

abbrev pub inc : ℕ → ℕ
inc c = fetch_add c 1

unfoldable pub add_evictions : ℕ → HostMetrics → HostMetrics
add_evictions n m = record m { gc_evictions = fetch_add m.gc_evictions n }

unfoldable pub offer_accepted : HostMetrics → HostMetrics
offer_accepted m = record m { offers_accepted = inc m.offers_accepted }

unfoldable pub offer_declined : HostMetrics → HostMetrics
offer_declined m = record m { offers_declined = inc m.offers_declined }

unfoldable pub offer_failed : HostMetrics → HostMetrics
offer_failed m = record m { offers_failed = inc m.offers_failed }

unfoldable pub audit_passed : HostMetrics → HostMetrics
audit_passed m = record m { audits_passed = inc m.audits_passed }

unfoldable pub audit_failed : HostMetrics → HostMetrics
audit_failed m = record m { audits_failed = inc m.audits_failed }

unfoldable pub count_release : HostMetrics → HostMetrics
count_release m = record m { releases = inc m.releases }

unfoldable pub auth_deny : HostMetrics → HostMetrics
auth_deny m = record m { auth_denied = inc m.auth_denied }

-- The copy that is logged.
pub record MetricsSnapshot : Type 0 where
  pub offers_accepted : ℕ
  pub offers_declined : ℕ
  pub offers_failed : ℕ
  pub audits_passed : ℕ
  pub audits_failed : ℕ
  pub releases : ℕ
  pub gc_evictions : ℕ
  pub auth_denied : ℕ

unfoldable pub snapshot : HostMetrics → MetricsSnapshot
snapshot m = record {
  offers_accepted = m.offers_accepted;
  offers_declined = m.offers_declined;
  offers_failed = m.offers_failed;
  audits_passed = m.audits_passed;
  audits_failed = m.audits_failed;
  releases = m.releases;
  gc_evictions = m.gc_evictions;
  auth_denied = m.auth_denied;
}
