-- ===== src/Host/Tasks/Counters.antt =====
-- The counters of src/metrics.rs beside the replies of the tasks of src/host.rs.
pub mod Replies
pub mod Turns
pub mod Telling
use ce_pin.Prelude.{
  ℕ, ◌+◌, ◌%◌, ◌^◌, ◌<◌, ◌==◌, ◌≡◌, refl, Bool, true, false, Option, none, some, List, [], ◌∷◌,
  arith, if◌then◌else◌, get_elem?, set, ap, some_inj, zero, suc, ◌++◌,
}
use ce_pin.Metrics.{
  HostMetrics, offer_accepted, offer_declined, offer_failed, audit_passed, audit_failed,
  count_release, auth_deny,
}
use ce_pin.Proto.{OfferResp, Reason, fetch_failed, fetch_timed_out}
use ce_pin.Host.Dispatch.{
  Reply, offer_reply, audit_reply, status_reply, renew_reply, release_reply, negative, denied,
}
use ce_pin.Host.Tasks.{Task, finished}

-- The counters of replies; evictions are not of a reply.
pub data Counter : Type 0 where
  accepting : Counter
  declining : Counter
  failing : Counter
  passing : Counter
  failing_audit : Counter
  releasing : Counter
  denying : Counter

abbrev pub read : Counter → HostMetrics → ℕ
read accepting m = m.offers_accepted
read declining m = m.offers_declined
read failing m = m.offers_failed
read passing m = m.audits_passed
read failing_audit m = m.audits_failed
read releasing m = m.releases
read denying m = m.auth_denied

abbrev pub bump : Counter → HostMetrics → HostMetrics
bump accepting = offer_accepted
bump declining = offer_declined
bump failing = offer_failed
bump passing = audit_passed
bump failing_audit = audit_failed
bump releasing = count_release
bump denying = auth_deny

abbrev pub same : Counter → Counter → Bool
same accepting accepting = true
same declining declining = true
same failing failing = true
same passing passing = true
same failing_audit failing_audit = true
same releasing releasing = true
same denying denying = true
same _ _ = false

pub read-bump :
    (c d : Counter) (m : HostMetrics)
    → read c m < 2 ^ 64
    → read c (bump d m) ≡ (read c m + (if same c d then 1 else 0)) % 2 ^ 64
unfolding offer_accepted offer_declined offer_failed audit_passed audit_failed count_release
    auth_deny
read-bump c d m h = ground arith

-- The counter that a reply stands for.
abbrev pub refused_in : Option Reason → Counter
refused_in (some fetch_failed) = failing
refused_in (some (fetch_timed_out n)) = failing
refused_in _ = declining

abbrev pub audited_in {ℓ} : {A : Type ℓ} → Option A → Counter
audited_in none = failing_audit
audited_in (some proof) = passing

abbrev pub counter_of : Reply → Option Counter
counter_of (offer_reply r) = some (if r.accepted then accepting else refused_in r.reason)
counter_of (audit_reply r) = some (audited_in r.proof)
counter_of (status_reply r) = none
counter_of (renew_reply r) = none
counter_of (release_reply r) = if r.released then some releasing else none
counter_of (negative denied) = some denying
counter_of (negative f) = none

abbrev pub note_of : Task → Option Counter
note_of (finished reply) = counter_of reply
note_of _ = none

abbrev pub note : Option Counter → HostMetrics → HostMetrics
note none m = m
note (some d) m = bump d m

abbrev pub earned : Counter → Option Counter → ℕ
earned c none = 0
earned c (some d) = if same c d then 1 else 0

-- How many tasks are finished with a reply for a counter.
abbrev pub tally : Counter → List Task → ℕ
tally c [] = 0
tally c (t ∷ ts) = earned c (note_of t) + tally c ts

pub read-note :
    (c : Counter) (o : Option Counter) (m : HostMetrics)
    → read c m < 2 ^ 64
    → read c (note o m) ≡ (read c m + earned c o) % 2 ^ 64
read-note c none m h = omega (arith, h)
read-note c (some d) m h = read-bump c d m h

pub tally-set :
    (c : Counter) (ts : List Task) (i : ℕ) (t t' : Task)
    → get_elem? ts i ≡ some t
    → tally c (set ts i t') + earned c (note_of t) ≡ tally c ts + earned c (note_of t')
tally-set c [] i t t' e = cc
tally-set c (u ∷ ts) zero t t' e =
    omega (arith, ap (λ (x : Task). earned c (note_of x)) (some_inj u t e))
tally-set c (u ∷ ts) (suc i) t t' e = omega (arith, tally-set c ts i t t' e)

pub tally-append :
    (c : Counter) (ts : List Task) (t : Task)
    → tally c (ts ++ t ∷ []) ≡ tally c ts + earned c (note_of t)
tally-append c [] t = omega arith
tally-append c (u ∷ ts) t = omega (arith, tally-append c ts t)
