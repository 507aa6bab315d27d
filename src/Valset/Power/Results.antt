-- ===== src/Valset/Power/Results.antt =====
-- What `power_diff` returns, on sets whose powers do not overflow a `u64`.
use minter_hub.Dict.{contains}
use minter_hub.Float.{F32, div_u32_max, f32_of_u64, lt, round24, round_from, round_half_even}
use minter_hub.Float.Rounding.{round24_mono}
use minter_hub.Outcome.{Outcome, ok}
use minter_hub.Prelude.{
  List, ap, arith, false, le→ltb, refl, true, ℕ, ◌+◌, ◌<◌, ◌||◌, ◌↔◌, ◌≡◌, ◌≤◌,
}
use minter_hub.Valset.{EthAddress, Valset}
use minter_hub.Valset.Power.{power_diff}
use minter_hub.Valset.Power.Bounds.{distance-around, distance-eq_zero, distance-le, distance_comm}
use minter_hub.Valset.Power.Distance.{distance, gap, total_power_diff_lem}
use minter_hub.Valset.Power.Maps.{has, power_at}
use minter_hub.Valset.Power.Sums.{Distinct, sum_over}
use minter_hub.Valset.Signing.Votes.{total_power}
use native.Mathlib.Decide.{dec_lt}

power_diff-distance :
    {E : Type 0} (v w : Valset)
    → total_power v.members + total_power w.members < 18446744073709551616
    → power_diff {E = E} v w ≡ ok (div_u32_max (f32_of_u64 (distance v w)))
unfolding power_diff
power_diff-distance v w b = rw (total_power_diff_lem v w (omega (arith, distance-le v w)))

-- For two sets whose powers sum below 2 ^ 64, `power_diff` does not panic, and it returns the sum over
-- any list of addresses, each once and all of both sets among them, of the differences of the
-- address's powers, as `f32`, divided by `u32::MAX`. An address counts with the power of the last
-- member that has it, and with zero where no member has it.
pub power_diff_lem :
    {E : Type 0} (v w : Valset) (u : List EthAddress)
    → total_power v.members + total_power w.members < 18446744073709551616
    → Distinct u
    → ((k : EthAddress) → (has v.members k || has w.members k) ≡ true → contains k u ≡ true)
    → power_diff {E = E} v w ≡ ok (div_u32_max (f32_of_u64 (sum_over (gap v w) u)))
power_diff_lem v w u b d covers = rw (← distance-around v w u d covers) (power_diff-distance v w b)

-- `power_diff` is symmetric for two sets whose powers sum below 2 ^ 64.
power_diff_comm :
    {E : Type 0} (v w : Valset)
    → total_power v.members + total_power w.members < 18446744073709551616
    → power_diff {E = E} v w ≡ power_diff w v
power_diff_comm v w b =
    rw (power_diff-distance v w b, power_diff-distance w v (omega arith), distance_comm v w)

round24_at_two : round24 8589934590 ≡ 8589934592
unfolding round24 round_from round_half_even
round24_at_two = refl

two-ge-quotient :
    (t : ℕ)
    → t ≤ 8589934590
    → lt (record { num = 2; scale = 0 }) (div_u32_max (f32_of_u64 t)) ≡ false
unfolding lt div_u32_max f32_of_u64
two-ge-quotient t h = le→ltb _ _ (omega (arith, round24_mono t 8589934590 h, round24_at_two))

-- Where the powers of each set sum to at most `u32::MAX`, as those of a bridge do, `power_diff` returns
-- a value that is not greater than two.
pub power_diff-le_two :
    {E : Type 0} (v w : Valset)
    → total_power v.members ≤ 4294967295
    → total_power w.members ≤ 4294967295
    → (d : F32) × (power_diff {E = E} v w ≡ ok d) × (lt (record { num = 2; scale = 0 }) d ≡ false)
power_diff-le_two v w p q = (
  div_u32_max (f32_of_u64 (distance v w)),
  power_diff-distance v w (omega arith),
  two-ge-quotient (distance v w) (omega (arith, distance-le v w)),
)

round24_at_one : round24 1 ≡ 1
unfolding round24 round_from round_half_even
round24_at_one = refl

round24_at_zero : round24 0 ≡ 0
unfolding round24 round_from round_half_even
round24_at_zero = refl

round24-eq_zero : (n : ℕ) → (round24 n ≡ 0) ↔ (n ≡ 0)
round24-eq_zero n = (
  λ z. elim (dec_lt 0 n) [
    | yes p ↦ absurd (omega (arith, round24_mono 1 n p, round24_at_one))
    | no p ↦ omega arith
  ],
  λ z. rw z round24_at_zero,
)

ok-injective : {E A : Type 0} (a b : A) → ◌≡◌ {A = Outcome E A} (ok a) (ok b) → a ≡ b
ok-injective a b h = cc

-- For two sets whose powers sum below 2 ^ 64, `power_diff` returns zero exactly when every address has
-- the same power in both: rounding hides no difference.
pub power_diff-eq_zero :
    {E : Type 0} (v w : Valset)
    → total_power v.members + total_power w.members < 18446744073709551616
    → (power_diff {E = E} v w ≡ ok (record { num = 0; scale = 32 }))
      ↔ ((k : EthAddress) → power_at v.members k ≡ power_at w.members k)
power_diff-eq_zero v w b = rw (power_diff-distance v w b) (
  λ h. (distance-eq_zero v w).0 (
      (round24-eq_zero (distance v w)).0
        (unfold div_u32_max f32_of_u64 in ap (λ (d : F32). d.num) (ok-injective _ _ h))),
  λ same. unfold div_u32_max f32_of_u64 in (rw ((distance-eq_zero v w).1 same, round24_at_zero)),
)
