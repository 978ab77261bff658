-- ===== src/Config/Env.antt =====
-- `HostConfig::from_env` of src/config.rs: which configurations it can return.
use ce_pin.Prelude.{
  ℕ, ◌≤◌, arith, u64_max, u128_max, Option, none, some, Option-cases, inl, inr, unwrap_or,
}
use ce_pin.Prelude.Text.{Text, lit, trim, parse_uint}
use ce_pin.Prelude.Text.Number.{parse_uint-le}
use ce_pin.Config.{HostConfig, EnvVars, parse_var, env_u64, env_u128, from_env}

parse_var-le : (bound : ℕ) (v : Option Text) → unwrap_or (parse_var bound v) 0 ≤ bound
parse_var-le bound none = omega arith
parse_var-le bound (some v) = elim (Option-cases (parse_uint bound (trim v))) [
  | inl e ↦ rw e (omega arith)
  | inr (n, e) ↦ rw e (parse_uint-le bound n (trim v) e)
]

env_u64-le : (env : EnvVars) (key : Text) → unwrap_or (env_u64 env key) 0 ≤ u64_max
unfolding env_u64
env_u64-le env key = parse_var-le u64_max (env key)

env_u128-le : (env : EnvVars) (key : Text) → unwrap_or (env_u128 env key) 0 ≤ u128_max
unfolding env_u128
env_u128-le env key = parse_var-le u128_max (env key)

-- What a host may rely on.
pub record IsUsable (c : HostConfig) : Type 0 where
  pub workers : 1 ≤ c.max_concurrent
  pub timeout : 1 ≤ c.fetch_timeout
  pub window : 1024 ≤ c.seen_window
  pub object_word : c.max_object_bytes ≤ u64_max
  pub capacity_word : c.capacity_bytes ≤ u64_max
  pub rent_word : c.min_rent_per_gb_hour ≤ u128_max

-- Whatever the environment holds, there is a worker, a positive timeout and a window of at least
-- 1024, and each limit fits its type.
pub from_env-IsUsable : (env : EnvVars) → IsUsable (from_env env)
unfolding from_env
from_env-IsUsable env = record {
  workers = ground arith;
  timeout = ground arith;
  window = ground arith;
  object_word = ground (arith, env_u64-le env (lit "CE_PIN_MAX_OBJECT_BYTES"));
  capacity_word = ground (arith, env_u64-le env (lit "CE_PIN_CAPACITY_BYTES"));
  rent_word = ground (arith, env_u128-le env (lit "CE_PIN_MIN_RENT"));
}
