-- ===== src/Valset/Power.antt =====
-- `Valset::power_diff` of orchestrator/peggy_utils/src/types/valsets.rs, with its panics.
pub mod Maps
pub mod Bounds
pub mod Results
pub mod Sums
pub mod Distance
use minter_hub.Dict.{HashMap, HashSet, intersection, lookup, symmetric_difference}
use minter_hub.Float.{F32, div_u32_max, f32_of_u64}
use minter_hub.Outcome.{Outcome, ok, unwrap, ◌>>=◌}
use minter_hub.Prelude.{Option, [], if◌then◌else◌, ltb, none, some, ℕ, ◌-◌, ◌∷◌}
use minter_hub.Valset.{Valset, to_hashmap, to_hashset}
use minter_hub.Words.{add_u64}

-- `if power_a > power_b { power_a - power_b } else { power_b - power_a }`
abbrev pub abs_diff : ℕ → ℕ → ℕ
abs_diff power_a power_b = if ltb power_b power_a then power_a - power_b else power_b - power_a

-- The power of an address that only one of the maps holds: `a` is asked first.
abbrev pub lone_power : Option ℕ → Option ℕ → Option ℕ
lone_power (some val) b = some val
lone_power none b = b

module _ {E : Type 0} (a b : HashMap ℕ) where
  -- The loop over the symmetric difference.
  unfoldable pub sum_lone : HashSet → ℕ → Outcome E ℕ
  sum_lone [] total = ok total
  sum_lone (item ∷ rest) total = unwrap (lone_power (lookup item a) (lookup item b)) >>= λ power.
      sum_lone rest (add_u64 total power)

  -- The loop over the intersection.
  unfoldable pub sum_shared : HashSet → ℕ → Outcome E ℕ
  sum_shared [] total = ok total
  sum_shared (item ∷ rest) total = unwrap (lookup item a) >>= λ power_a.
      unwrap (lookup item b) >>= λ power_b.
      sum_shared rest (add_u64 total (abs_diff power_a power_b))

unfoldable pub total_power_diff : {E : Type 0} → Valset → Valset → Outcome E ℕ
total_power_diff self other =
    let a = to_hashmap self in
    let b = to_hashmap other in
    let a_map = to_hashset self in
    let b_map = to_hashset other in
    sum_lone a b (symmetric_difference a_map b_map) 0 >>= λ total.
    sum_shared a b (intersection a_map b_map) total

unfoldable pub power_diff : {E : Type 0} → Valset → Valset → Outcome E F32
power_diff self other = total_power_diff self other >>= λ total. ok (div_u32_max (f32_of_u64 total))
