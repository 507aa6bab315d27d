-- ===== src/Bytes/Words.antt =====
-- Big-endian numbers read back as they were written.
use minter_hub.Bytes.{Bytes, be_bytes, be_value, be_value_from}
use minter_hub.Prelude.{
  [], arith, length, length-append, refl, suc, zero, ℕ, ◌%◌, ◌*◌, ◌++◌, ◌+◌, ◌/◌, ◌<◌, ◌^◌, ◌∷◌,
  ◌≡◌,
}
use native.Mathlib.Nat.{pow-suc, pow-zero}

be_value_from-append :
    (acc : ℕ) (xs ys : Bytes)
    → be_value_from acc (xs ++ ys) ≡ be_value_from (be_value_from acc xs) ys
be_value_from-append acc [] ys = refl
be_value_from-append acc (x ∷ xs) ys = be_value_from-append (acc * 256 + x) xs ys

pub length-be_bytes : (k n : ℕ) → length (be_bytes k n) ≡ k
unfolding be_bytes
length-be_bytes zero n = refl
length-be_bytes (suc k) n =
    omega
      (arith, length-append (be_bytes k (n / 256)) ((n % 256) ∷ []), length-be_bytes k (n / 256))

pub be_value-be_bytes : (k n : ℕ) → n < 256 ^ k → be_value (be_bytes k n) ≡ n
unfolding be_bytes be_value
be_value-be_bytes zero n h = omega (arith, pow-zero 256)
be_value-be_bytes (suc k) n h =
    rw (be_value_from-append 0 (be_bytes k (n / 256)) ((n % 256) ∷ []))
      (omega (arith, be_value-be_bytes k (n / 256) (omega (arith, pow-suc 256 k))))
