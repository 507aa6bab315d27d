-- ===== src/Float.antt =====
-- The part of Rust's `f32` that the orchestrator computes with: a `u64` as `f32`, the quotient by
-- `u32::MAX as f32`, a product, and a comparison. A finite `f32` that is not negative is
-- `num / 2 ^ scale`; every operation rounds to 24 significant bits, ties to even. The values met
-- lie far from the ends of the range of exponents, so there is no overflow and no subnormal.
pub mod Rounding
use minter_hub.Prelude.{
  Bool, if◌then◌else◌, ltb, refl, suc, zero, ℕ, ◌%◌, ◌*◌, ◌+◌, ◌/◌, ◌==◌, ◌^◌, ◌≡◌,
}

-- The multiple of `u` nearest to `n`; of two that are equally near, the even one.
unfoldable pub round_half_even : ℕ → ℕ → ℕ
round_half_even u n =
    let q = n / u in
    let r = n % u in
    if ltb (2 * r) u
    then q * u
    else if ltb u (2 * r)
    then (q + 1) * u
    else if q % 2 == 0
    then q * u
    else (q + 1) * u

-- Doubles the unit until `n` is below 2 ^ 24 units.
unfoldable pub round_from : ℕ → ℕ → ℕ → ℕ
round_from zero u n = n
round_from (suc f) u n =
    let wider = round_from f (u * 2) n in if ltb n (2 ^ 24 * u) then round_half_even u n else wider

-- `n` rounded to 24 significant bits; the fuel serves for every `n` below 2 ^ 151.
unfoldable pub round24 : ℕ → ℕ
unfolding round_from round_half_even
round24 n = round_from 128 1 n

pub record F32 : Type 0 where
  pub num : ℕ
  pub scale : ℕ

-- `n as f32`
unfoldable pub f32_of_u64 : ℕ → F32
f32_of_u64 n = record { num = round24 n; scale = 0 }

-- `x / (u32::MAX as f32)`: the divisor is 2 ^ 32, as `f32_of_u64-u32_max` shows, so the quotient
-- changes the exponent alone.
unfoldable pub div_u32_max : F32 → F32
div_u32_max x = record x { scale = x.scale + 32 }

unfoldable pub mul : F32 → F32 → F32
mul x y = record { num = round24 (x.num * y.num); scale = x.scale + y.scale }

-- `x < y`
unfoldable pub lt : F32 → F32 → Bool
lt x y = ltb (x.num * 2 ^ y.scale) (y.num * 2 ^ x.scale)

pub f32_of_u64-u32_max : f32_of_u64 4294967295 ≡ record { num = 2 ^ 32; scale = 0 }
unfolding f32_of_u64 round24 round_from round_half_even
f32_of_u64-u32_max = refl
