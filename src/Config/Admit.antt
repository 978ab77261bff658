-- ===== src/Config/Admit.antt =====
-- `HostConfig::admit` of src/config.rs: which offers pass, and the reason for a refusal.
use ce_pin.Prelude.{
  ℕ, ◌⊎◌, ◌+◌, ◌≤◌, ◌<◌, ◌≡◌, ◌↔◌, arith, u64_max, u128_max, sat_add_64, Option-cases, inl, inr,
  none,
}
use ce_pin.Prelude.Text.{Text, trim, parse_uint}
use ce_pin.Prelude.Text.Number.{parse_uint-le}
use ce_pin.Config.{
  HostConfig, admitted, rejected, Rejection, object_too_large, rent_too_low, insufficient_capacity,
  offered_rent, admit,
}

-- What an offer must meet.
pub record Fits (c : HostConfig) (declared : ℕ) (rent : Text) (held : ℕ) : Type 0 where
  pub size : declared ≤ c.max_object_bytes
  pub price : c.min_rent_per_gb_hour ≤ offered_rent rent
  pub room : held + declared ≤ c.capacity_bytes

-- An offer is admitted just when its declared size is within the object limit, its rent is at least
-- the minimum, and it fits beside what is held; the budget is below the largest u64, where the
-- saturating sum cannot tell.
pub admit-iff_Fits :
    (c : HostConfig) (declared held : ℕ) (rent : Text)
    → c.capacity_bytes < u64_max
    → (admit c declared rent held ≡ admitted) ↔ Fits c declared rent held
unfolding admit
admit-iff_Fits c declared held rent b = (λ h. ground arith, λ f. ground arith)

-- The reason that is given is the first test that failed, and its numbers are those of the offer.
pub admit-reason :
    (c : HostConfig) (declared held : ℕ) (rent : Text) (r : Rejection)
    → admit c declared rent held ≡ rejected r
    → ((c.max_object_bytes < declared) × (r ≡ object_too_large declared c.max_object_bytes))
      ⊎ ((declared ≤ c.max_object_bytes)
          × (offered_rent rent < c.min_rent_per_gb_hour)
          × (r ≡ rent_too_low (offered_rent rent) c.min_rent_per_gb_hour))
      ⊎ ((declared ≤ c.max_object_bytes)
          × (c.min_rent_per_gb_hour ≤ offered_rent rent)
          × (c.capacity_bytes < held + declared)
          × (r ≡ insufficient_capacity declared (sat_add_64 held declared) c.capacity_bytes))
unfolding admit
admit-reason c declared held rent r e = ground arith

-- A rent that does not parse as an unsigned integer is refused by every host that wants any.
pub admit-malformed_rent :
    (c : HostConfig) (declared held : ℕ) (rent : Text)
    → parse_uint u128_max (trim rent) ≡ none
    → 0 < c.min_rent_per_gb_hour
    → declared ≤ c.max_object_bytes
    → admit c declared rent held ≡ rejected (rent_too_low 0 c.min_rent_per_gb_hour)
unfolding admit offered_rent
admit-malformed_rent c declared held rent p m s = ground arith

-- An offered rent is a u128.
pub offered_rent-le : (rent : Text) → offered_rent rent ≤ u128_max
unfolding offered_rent
offered_rent-le rent = elim (Option-cases (parse_uint u128_max (trim rent))) [
  | inl e ↦ rw e (omega arith)
  | inr (n, e) ↦ rw e (parse_uint-le u128_max n (trim rent) e)
]
