-- ===== src/Valset/Signing/Threshold.antt =====
-- The test `peggy_power_to_percent(power) < 66f32` as a test of the power itself.
use minter_hub.Float.{div_u32_max, f32_of_u64, lt, mul, round24, round_from, round_half_even}
use minter_hub.Float.Rounding.{round24_mono}
use minter_hub.Prelude.{
  Bool-cases, arith, inl, inr, le→ltb, ltb, lt→ltb, refl, tests, ℕ, ◌*◌, ◌<◌, ◌^◌, ◌∙◌, ◌≡◌, ◌≤◌,
}
use minter_hub.Valset.Signing.{peggy_power_to_percent}

-- The least power that passes for 66 percent.
abbrev pub quorum : ℕ
quorum = 2834678144

percent_num : ℕ → ℕ
percent_num p = round24 (round24 p * 100)

percent_num_mono : (m n : ℕ) → m ≤ n → percent_num m ≤ percent_num n
unfolding percent_num
percent_num_mono m n h =
    round24_mono (round24 m * 100) (round24 n * 100) (omega (arith, round24_mono m n h))

percent_num_at_quorum : percent_num 2834678144 ≡ 66 * 2 ^ 32
unfolding percent_num round24 round_from round_half_even
percent_num_at_quorum = refl

percent_num_below_quorum : percent_num 2834678143 < 66 * 2 ^ 32
unfolding percent_num round24 round_from round_half_even
percent_num_below_quorum = omega arith

lt-percent :
    (p : ℕ)
    → lt (peggy_power_to_percent p) (record { num = 66; scale = 0 })
      ≡ ltb (percent_num p * 1) (66 * 2 ^ 32)
unfolding lt peggy_power_to_percent percent_num mul div_u32_max f32_of_u64
lt-percent p = refl

-- A power passes for less than 66 percent in `f32` arithmetic exactly when it is below 2834678144.
pub percent-lt-quorum :
    (p : ℕ) → lt (peggy_power_to_percent p) (record { num = 66; scale = 0 }) ≡ ltb p quorum
percent-lt-quorum p = lt-percent p ∙ elim (Bool-cases (ltb p quorum)) [
  | inl below ↦ rw below (
      lt→ltb _ _
        (omega (tests, percent_num_mono p 2834678143 (omega tests), percent_num_below_quorum)))
  | inr enough ↦ rw enough (
      le→ltb _ _
        (omega (tests, percent_num_mono 2834678144 p (omega tests), percent_num_at_quorum)))
]
