-- ===== src/Client/Rent.antt =====
-- The money of src/client.rs: the capacity of a rent channel beside the rent that is owed.
use ce_pin.Prelude.{
  ℕ, ◌+◌, ◌-◌, ◌*◌, ◌/◌, ◌^◌, ◌≤◌, ◌<◌, max, ◌≡◌, arith, sat_mul_128, sat_mul_128_mono, u128_max,
  pos,
}
use ce_pin.Client.{gib, channel_capacity_for, rent_owed_base}

-- The estimate of a channel's capacity, before its floor.
abbrev estimate : ℕ → ℕ → ℕ → ℕ
estimate bytes rate hours =
    sat_mul_128 (sat_mul_128 rate (max ((sat_mul_128 bytes 1000 + gib - 1) / gib) 1)) hours / 1000

estimate-le : (bytes rate hours : ℕ) → estimate bytes rate hours < 2 ^ 127
estimate-le bytes rate hours = omega arith

rent-le-estimate :
    (bytes rate hours lease : ℕ)
    → hours ≤ lease
    → rent_owed_base bytes hours rate ≤ estimate bytes rate lease
unfolding rent_owed_base
rent-le-estimate bytes rate hours lease h =
    let down = sat_mul_128 bytes 1000 / gib in
    let up = max ((sat_mul_128 bytes 1000 + gib - 1) / gib) 1 in
    let rounds_up : down ≤ up = omega arith in
    let per_hour = sat_mul_128_mono rate rate down up (omega arith) rounds_up in
    let total =
      sat_mul_128_mono (sat_mul_128 rate down) (sat_mul_128 rate up) hours lease per_hour h in
    omega (arith, total)

-- The capacity that is locked for a lease is the positive number `c`, never a wrapped one; it is at
-- least one credit, and it covers the rent owed for any number of hours up to the lease's.
pub channel_capacity_for-covers :
    (credit bytes rate lease hours : ℕ)
    → credit < 2 ^ 127
    → hours ≤ lease
    → (c : ℕ) × (channel_capacity_for credit bytes rate lease ≡ pos c)
      × (credit ≤ c)
      × (rent_owed_base bytes hours rate ≤ c)
unfolding channel_capacity_for
channel_capacity_for-covers credit bytes rate lease hours k h =
    let fits = estimate-le bytes rate lease in
    let covers = rent-le-estimate bytes rate hours lease h in
    (
      max (estimate bytes rate lease) credit,
      ground (arith, fits),
      omega arith,
      omega (arith, covers),
    )

-- The rent of whole GiB is the product of rate, size and time where that product and its thousandfold
-- fit a u128.
pub rent_owed_base-exact :
    (gibs hours rate : ℕ)
    → gibs * gib * 1000 ≤ u128_max
    → rate * (gibs * 1000) * hours ≤ u128_max
    → rate * (gibs * 1000) ≤ u128_max
    → rent_owed_base (gibs * gib) hours rate ≡ rate * gibs * hours
unfolding rent_owed_base
rent_owed_base-exact gibs hours rate a b c =
    let milli : sat_mul_128 (gibs * gib) 1000 / gib ≡ gibs * 1000 = omega arith in
    let per_hour : sat_mul_128 rate (gibs * 1000) ≡ rate * (gibs * 1000) = omega arith in
    let product : rate * (gibs * 1000) * hours ≡ rate * gibs * hours * 1000 = grind arith in
    rw (milli, per_hour) (omega (arith, product))
