-- ===== src/Ethereum/Nonces.antt =====
-- `downcast_nonce` keeps every number that it accepts.
use minter_hub.Bytes.{Bytes, be_value}
use minter_hub.Crates.{Num256}
use minter_hub.Ethereum.{downcast_nonce, pad_to_8}
use minter_hub.Outcome.{ok}
use minter_hub.Prelude.{
  Bool-cases, arith, false, if◌then◌else◌, inl, inr, leb, length, le→leb, le→ltb, ltb, lt→ltb, none,
  refl, some, suc, tests, zero, ℕ, ◌+◌, ◌<◌, ◌∷◌, ◌≡◌, ◌≤◌,
}
use native.Mathlib.Decide.{dec_lt}

length-pad_to_8 :
    (f : ℕ) (val : Bytes) → length val ≤ 8 → 8 ≤ f + length val → length (pad_to_8 f val) ≡ 8
unfolding pad_to_8
length-pad_to_8 zero val h k = omega arith
length-pad_to_8 (suc f) val h k = elim (Bool-cases (ltb (length val) 8)) [
  | inl short ↦ rw short (length-pad_to_8 f (0 ∷ val) (omega tests) (omega arith))
  | inr full ↦ rw full (omega tests)
]

be_value-pad_to_8 : (f : ℕ) (val : Bytes) → be_value (pad_to_8 f val) ≡ be_value val
unfolding pad_to_8 be_value
be_value-pad_to_8 zero val = refl
be_value-pad_to_8 (suc f) val = ground (arith, be_value-pad_to_8 f (0 ∷ val))

-- `downcast_nonce` never panics, returns every number below `u64::MAX` unchanged, and refuses
-- `u64::MAX` itself, which a `u64` holds, with everything above it.
pub downcast_nonce_lem :
    {E : Type 0} (num : Num256) (n : ℕ)
    → downcast_nonce {E = E} num n ≡ ok (if ltb n 18446744073709551615 then some n else none)
unfolding downcast_nonce
downcast_nonce_lem num n = elim (dec_lt n 18446744073709551615) [
  | yes p ↦
      let short : length (num.to_bytes_be n) ≤ 8 = num.to_bytes_be_short n 7 (omega arith) in
      let full = length-pad_to_8 8 (num.to_bytes_be n) short (omega arith) in
      rw
        (
          leb_false n p,
          lt→ltb n 18446744073709551615 p,
          full,
          be_value-pad_to_8 8 (num.to_bytes_be n),
          num.to_bytes_be_value n,
        )
        refl
  | no p ↦
      rw (le→leb 18446744073709551615 n (omega arith), le→ltb n 18446744073709551615 (omega arith))
        refl
]
  where
    leb_false : (k : ℕ) → k < 18446744073709551615 → leb 18446744073709551615 k ≡ false
    leb_false k h = ground arith
