-- ===== src/Config.antt =====
-- src/config.rs: the limits of a pinning host, from the environment, and admission of an offer
-- before its object is fetched. `usize` has 64 bits.
pub mod Admit
pub mod Env
use ce_pin.Prelude.{
  ℕ, suc, ◌+◌, ◌*◌, max, ◌≡◌, Bool, Option, none, some, ltb, if◌then◌else◌, unwrap_or, u64_max,
  u128_max, sat_add_64,
}
use ce_pin.Prelude.Text.{Text, lit, trim, parse_uint}

abbrev pub default_max_object_bytes : ℕ
default_max_object_bytes = 2 * 1024 * 1024 * 1024

abbrev pub default_capacity_bytes : ℕ
default_capacity_bytes = 64 * 1024 * 1024 * 1024

abbrev pub default_min_rent_per_gb_hour : ℕ
default_min_rent_per_gb_hour = 0

abbrev pub default_max_concurrent : ℕ
default_max_concurrent = 8

abbrev pub default_fetch_timeout_secs : ℕ
default_fetch_timeout_secs = 180

abbrev pub default_seen_window : ℕ
default_seen_window = 65536

-- `fetch_timeout` is in seconds.
pub record HostConfig : Type 0 where
  pub max_object_bytes : ℕ
  pub capacity_bytes : ℕ
  pub min_rent_per_gb_hour : ℕ
  pub max_concurrent : ℕ
  pub fetch_timeout : ℕ
  pub seen_window : ℕ

abbrev pub default_config : HostConfig
default_config = record {
  max_object_bytes = default_max_object_bytes;
  capacity_bytes = default_capacity_bytes;
  min_rent_per_gb_hour = default_min_rent_per_gb_hour;
  max_concurrent = default_max_concurrent;
  fetch_timeout = default_fetch_timeout_secs;
  seen_window = default_seen_window;
}

-- `std::env::var`
abbrev pub EnvVars : Type 0
EnvVars = Text → Option Text

abbrev parse_var : ℕ → Option Text → Option ℕ
parse_var bound none = none
parse_var bound (some v) = parse_uint bound (trim v)

unfoldable pub env_u64 : EnvVars → Text → Option ℕ
env_u64 env key = parse_var u64_max (env key)

unfoldable pub env_u128 : EnvVars → Text → Option ℕ
env_u128 env key = parse_var u128_max (env key)

unfoldable pub env_usize : EnvVars → Text → Option ℕ
env_usize env key = parse_var u64_max (env key)

abbrev with_value : Option ℕ → (ℕ → HostConfig → HostConfig) → HostConfig → HostConfig
with_value none f c = c
with_value (some v) f c = f v c

-- One update for each variable that is set and parses, in the order of the source.
unfoldable pub from_env : EnvVars → HostConfig
from_env env =
    let c1 =
      with_value (env_u64 env (lit "CE_PIN_MAX_OBJECT_BYTES"))
        (λ v c. record c { max_object_bytes = v }) default_config in
    let c2 =
      with_value (env_u64 env (lit "CE_PIN_CAPACITY_BYTES"))
        (λ v c. record c { capacity_bytes = v }) c1 in
    let c3 =
      with_value (env_u128 env (lit "CE_PIN_MIN_RENT"))
        (λ v c. record c { min_rent_per_gb_hour = v }) c2 in
    let c4 =
      with_value (env_usize env (lit "CE_PIN_MAX_CONCURRENT"))
        (λ v c. record c { max_concurrent = max v 1 }) c3 in
    let c5 =
      with_value (env_u64 env (lit "CE_PIN_FETCH_TIMEOUT_SECS"))
        (λ v c. record c { fetch_timeout = max v 1 }) c4 in
    with_value (env_usize env (lit "CE_PIN_SEEN_WINDOW"))
      (λ v c. record c { seen_window = max v 1024 }) c5

-- The rejections, with the numbers that their messages show.
pub data Rejection : Type 0 where
  object_too_large : ℕ → ℕ → Rejection
  rent_too_low : ℕ → ℕ → Rejection
  insufficient_capacity : ℕ → ℕ → ℕ → Rejection

pub data Admission : Type 0 where
  admitted : Admission
  rejected : Rejection → Admission

-- A malformed rent counts as zero.
unfoldable pub offered_rent : Text → ℕ
offered_rent rent_per_gb_hour = unwrap_or (parse_uint u128_max (trim rent_per_gb_hour)) 0

unfoldable pub admit : HostConfig → ℕ → Text → ℕ → Admission
admit c declared_bytes rent_per_gb_hour held_bytes =
    let rent = offered_rent rent_per_gb_hour in
    let projected = sat_add_64 held_bytes declared_bytes in
    if ltb c.max_object_bytes declared_bytes
    then rejected (object_too_large declared_bytes c.max_object_bytes)
    else if ltb rent c.min_rent_per_gb_hour
    then rejected (rent_too_low rent c.min_rent_per_gb_hour)
    else if ltb c.capacity_bytes projected
    then rejected (insufficient_capacity declared_bytes projected c.capacity_bytes)
    else admitted
