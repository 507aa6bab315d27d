-- ===== src/Valset/Power/Bounds.antt =====
-- The distance of two validator sets: bounded, symmetric, zero between equal sets.
use mathlib.Core.Path.{fun_ext}
use minter_hub.Dict.{HashSet, contains}
use minter_hub.Prelude.{
  Bool-cases, List, [], ap, arith, if◌then◌else◌, inl, inr, refl, sym, true, ℕ, ◌+◌, ◌||◌, ◌↔◌, ◌∙◌,
  ◌∷◌, ◌≡◌, ◌≤◌,
}
use minter_hub.Valset.{EthAddress, Valset, ValsetMember, is_at, to_hashset}
use minter_hub.Valset.Power.Distance.{distance, gap}
use minter_hub.Valset.Power.Maps.{contains-to_hashset, has, power_at, to_hashset-Distinct}
use minter_hub.Valset.Power.Sums.{
  Distinct, contains-union, ne_of_contains, sum_over, sum_over-around, sum_over-eq_zero,
  sum_over-le_add, sum_over-zero, union, union-Distinct,
}
use minter_hub.Valset.Signing.Votes.{total_power}

abbrev power_of : ValsetMember → EthAddress → ℕ
power_of m k = if is_at k m then m.power else 0

-- No member counts for more than it holds.
sum_over-power_of :
    (m : ValsetMember) (s : HashSet) → Distinct s → sum_over (power_of m) s ≤ m.power
sum_over-power_of m [] d = omega arith
sum_over-power_of m (k ∷ s) d = elim (Bool-cases (is_at k m)) [
  | inl at ↦ rw at (
      omega
        (arith, sum_over-zero (power_of m) s (λ j mj. ground (arith, ne_of_contains j k s mj d.0))))
  | inr elsewhere ↦ rw elsewhere (omega (arith, sum_over-power_of m s d.1))
]

power_at-le :
    (m : ValsetMember) (rest : List ValsetMember) (k : EthAddress)
    → power_at (m ∷ rest) k ≤ power_of m k + power_at rest k
power_at-le m rest k = ground arith

sum_over-power_at :
    (members : List ValsetMember) (s : HashSet)
    → Distinct s
    → sum_over (power_at members) s ≤ total_power members
sum_over-power_at [] s d = omega (arith, sum_over-zero (power_at []) s (λ k m. refl))
sum_over-power_at (m ∷ rest) s d = omega (
  arith,
  sum_over-power_of m s d,
  sum_over-power_at rest s d,
  sum_over-le_add (power_at (m ∷ rest)) (power_of m) (power_at rest) s (power_at-le m rest),
)

pub both-Distinct : (v w : Valset) → Distinct (union (to_hashset v) (to_hashset w))
both-Distinct v w =
    union-Distinct (to_hashset v) (to_hashset w) (to_hashset-Distinct v) (to_hashset-Distinct w)

-- The distance is at most the sum of all powers.
pub distance-le : (v w : Valset) → distance v w ≤ total_power v.members + total_power w.members
distance-le v w =
    let u = union (to_hashset v) (to_hashset w) in
    omega (
      arith,
      sum_over-power_at v.members u (both-Distinct v w),
      sum_over-power_at w.members u (both-Distinct v w),
      sum_over-le_add (gap v w) (power_at v.members) (power_at w.members) u (λ k. ground arith),
    )

pub contains-both :
    (v w : Valset) (k : EthAddress)
    → contains k (union (to_hashset v) (to_hashset w)) ≡ (has v.members k || has w.members k)
contains-both v w k = ground (
  arith,
  contains-union k (to_hashset v) (to_hashset w),
  contains-to_hashset k v,
  contains-to_hashset k w,
)

-- The distance may be taken over any addresses, each once, among which are those of both sets.
pub distance-around :
    (v w : Valset) (u : List EthAddress)
    → Distinct u
    → ((k : EthAddress) → (has v.members k || has w.members k) ≡ true → contains k u ≡ true)
    → distance v w ≡ sum_over (gap v w) u
distance-around v w u d covers =
    sum_over-around (gap v w) (union (to_hashset v) (to_hashset w)) u (both-Distinct v w) d
      (λ k m. covers k (sym (contains-both v w k) ∙ m))
      (λ k m n. ground (arith, contains-both v w k))

pub distance_comm : (v w : Valset) → distance v w ≡ distance w v
distance_comm v w =
    distance-around v w (union (to_hashset w) (to_hashset v)) (both-Distinct w v)
      (λ k h. ground (arith, contains-both w v k))
    ∙ ap (λ (f : ℕ → ℕ). sum_over f (union (to_hashset w) (to_hashset v)))
        (fun_ext (λ k. ground arith))

-- Sets are at distance zero exactly when every address has one power in both.
pub distance-eq_zero :
    (v w : Valset)
    → (distance v w ≡ 0) ↔ ((k : EthAddress) → power_at v.members k ≡ power_at w.members k)
distance-eq_zero v w = (
  λ z k. elim (Bool-cases (has v.members k || has w.members k)) [
    | inl held ↦ ground (
      arith,
      sum_over-eq_zero (gap v w) k (union (to_hashset v) (to_hashset w)) z
          (contains-both v w k ∙ held),
    )
    | inr nowhere ↦ ground arith
  ],
  λ same.
      sum_over-zero (gap v w) (union (to_hashset v) (to_hashset w)) (λ k m. ground (arith, same k)),
)
