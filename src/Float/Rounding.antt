-- ===== src/Float/Rounding.antt =====
-- Rounding to 24 significant bits is monotone, so a test of a rounded quantity against a constant
-- is a test of the exact quantity against one number.
use minter_hub.Float.{round24, round_from, round_half_even}
use minter_hub.Prelude.{
  Bool-cases, ap, arith, inl, inr, ltb, lt→ltb, suc, tests, zero, ℕ, ◌%◌, ◌*◌, ◌+◌, ◌/◌, ◌<◌, ◌^◌,
  ◌≡◌, ◌≤◌,
}
use native.Mathlib.Decide.{dec_lt}
use native.Mathlib.Nat.{
  div-lt_iff_lt-mul, div-mul-le_self, le-div_iff_mul-le, le_trans, mod-add-div', mul-le-mul_right,
}

round_half_even_lower : (u n : ℕ) → (n / u) * u ≤ round_half_even u n
unfolding round_half_even
round_half_even_lower u n = ground arith

round_half_even_upper : (u n : ℕ) → round_half_even u n ≤ (n / u + 1) * u
unfolding round_half_even
round_half_even_upper u n = ground arith

div_mono : (u m n : ℕ) → 0 < u → m ≤ n → m / u ≤ n / u
div_mono u m n p h = (le-div_iff_mul-le p).1 (le_trans (div-mul-le_self m u) h)

-- Two numbers between the same multiples of the unit.
round_half_even_same :
    (u m n : ℕ) → m / u ≡ n / u → m % u ≤ n % u → round_half_even u m ≤ round_half_even u n
unfolding round_half_even
round_half_even_same u m n e h = ground arith

round_half_even_mono : (u m n : ℕ) → 0 < u → m ≤ n → round_half_even u m ≤ round_half_even u n
round_half_even_mono u m n p h = elim (dec_lt (m / u) (n / u)) [
  | yes apart ↦
      le_trans (round_half_even_upper u m)
        (le_trans (mul-le-mul_right u (omega arith)) (round_half_even_lower u n))
  | no together ↦
      let e : m / u ≡ n / u = omega (arith, div_mono u m n p h) in
      round_half_even_same u m n e
        (omega (arith, mod-add-div' m u, mod-add-div' n u, ap (λ (t : ℕ). t * u) e))
]

round_half_even_below : (u c n : ℕ) → 0 < u → n < c * u → round_half_even u n ≤ c * u
round_half_even_below u c n p h =
    le_trans (round_half_even_upper u n)
      (mul-le-mul_right u (omega (arith, (div-lt_iff_lt-mul {x = n} {y = c} p).1 h)))

round_half_even_above : (u c n : ℕ) → 0 < u → c * u ≤ n → c * u ≤ round_half_even u n
round_half_even_above u c n p h =
    le_trans (mul-le-mul_right u ((le-div_iff_mul-le p).1 h)) (round_half_even_lower u n)

round_from_above : (f u n : ℕ) → 0 < u → 2 ^ 24 * u ≤ n → 2 ^ 24 * u ≤ round_from f (u * 2) n
unfolding round_from
round_from_above zero u n p h = h
round_from_above (suc f) u n p h = elim (Bool-cases (ltb n (2 ^ 24 * (u * 2)))) [
  | inl last ↦
      rw last (omega (arith, round_half_even_above (u * 2) (2 ^ 23) n (omega arith) (omega arith)))
  | inr more ↦ rw more (omega (tests, round_from_above f (u * 2) n (omega arith) (omega tests)))
]

round_from_mono : (f u m n : ℕ) → 0 < u → m ≤ n → round_from f u m ≤ round_from f u n
unfolding round_from
round_from_mono zero u m n p h = h
round_from_mono (suc f) u m n p h = elim (Bool-cases (ltb n (2 ^ 24 * u))) [
  | inl both ↦ rw (both, lt→ltb m (2 ^ 24 * u) (omega tests)) (round_half_even_mono u m n p h)
  | inr above ↦ rw above (elim (Bool-cases (ltb m (2 ^ 24 * u))) [
    | inl below ↦ rw below (
        le_trans (round_half_even_below u (2 ^ 24) m p (omega tests))
          (round_from_above f u n p (omega tests)))
    | inr none_below ↦ rw none_below (round_from_mono f (u * 2) m n (omega arith) h)
  ])
]

pub round24_mono : (m n : ℕ) → m ≤ n → round24 m ≤ round24 n
unfolding round24
round24_mono m n h = round_from_mono 128 1 m n (omega arith) h
