-- ===== src/Crates/Examples.antt =====
-- Concrete crates, with which the theorems are run.
use Prim.Native.Nat.{compare}
use minter_hub.Batches.{Parsers}
use minter_hub.Bytes.{Bytes, be_bytes, be_value}
use minter_hub.Bytes.Words.{be_value-be_bytes, length-be_bytes}
use minter_hub.Crates.{Clarity, Num256}
use minter_hub.Outcome.{err, ok}
use minter_hub.Prelude.{
  Bool-cases, Option, arith, false, if◌then◌else◌, inl, inr, leb, length, le→leb, le→ltb, ltb,
  ltb→le, ltb→lt, lt→ltb, none, refl, replicate, some, suc, true, zero, ℕ, ◌+◌, ◌-◌, ◌<◌, ◌==◌, ◌^◌,
  ◌≡◌, ◌≤◌,
}
use native.Mathlib.Decide.{dec_lt}
use native.Mathlib.Nat.{add-zero, pow-suc}

-- The number of bytes of a number, at least one.
unfoldable pub byte_count : ℕ → ℕ → ℕ → ℕ
byte_count zero k n = k
byte_count (suc fuel) k n = elim (ltb n (256 ^ k)) [ true ↦ k | false ↦ byte_count fuel (k + 1) n ]

less_power : (n : ℕ) → n < 256 ^ n
less_power zero = omega arith
less_power (suc n) = omega (arith, less_power n, pow-suc 256 n)

pub byte_count-enough : (fuel k n : ℕ) → n < 256 ^ (k + fuel) → n < 256 ^ byte_count fuel k n
unfolding byte_count
byte_count-enough zero k n h = rw (← add-zero k) h
byte_count-enough (suc fuel) k n h = elim (Bool-cases (ltb n (256 ^ k))) [
  | inl e ↦ rw (byte_count, e) (ltb→lt n (256 ^ k) e)
  | inr e ↦
      let q : k + 1 + fuel ≡ k + suc fuel = omega arith in
      rw (byte_count, e) (byte_count-enough fuel (k + 1) n (rw q h))
]

pub byte_count-least : (fuel k m n : ℕ) → k ≤ m → n < 256 ^ m → byte_count fuel k n ≤ m
unfolding byte_count
byte_count-least zero k m n h l = h
byte_count-least (suc fuel) k m n h l = elim (Bool-cases (ltb n (256 ^ k))) [
  | inl e ↦ rw (byte_count, e) h
  | inr e ↦
      rw (byte_count, e)
        (elim (dec_lt k m) [
          | yes p ↦ byte_count-least fuel (k + 1) m n (omega arith) l
          | no p ↦
              let q : k ≡ m = omega arith in
              let below : n < 256 ^ k = rw q l in absurd (omega (arith, ltb→le n (256 ^ k) e))
        ])
]

abbrev write_be : ℕ → Bytes
write_be n = be_bytes (byte_count n 1 n) n

abbrev checked_add : ℕ → ℕ → Option ℕ
checked_add a b = if ltb (a + b) (2 ^ 256) then some (a + b) else none

abbrev checked_sub : ℕ → ℕ → Option ℕ
checked_sub a b = if leb b a then some (a - b) else none

pub one_more : (n : ℕ) → n < 256 ^ (1 + n)
one_more n =
    let q : 1 + n ≡ suc n = omega arith in rw q (omega (arith, less_power n, pow-suc 256 n))

abbrev pub plain_num : Num256
plain_num = record {
  from_bytes_be = be_value;
  to_bytes_be = write_be;
  add = checked_add;
  sub = checked_sub;
  from_bytes_be_lem = λ bytes. refl;
  to_bytes_be_value =
      λ n. be_value-be_bytes (byte_count n 1 n) n (byte_count-enough n 1 n (one_more n));
  to_bytes_be_short = λ n k h.
      rw (length-be_bytes (byte_count n 1 n) n) (byte_count-least n 1 (suc k) n (omega arith) h);
  add_fits = λ a b h. rw (lt→ltb (a + b) (2 ^ 256) h) refl;
  sub_fits = λ a b h. rw (le→leb b a h) refl;
  sub_underflows = λ a b h. ground arith;
  add_overflows = λ a b h. rw (le→ltb (a + b) (2 ^ 256) h) refl;
}

abbrev pub plain_eth : Clarity
plain_eth = record {
  from_slice = λ bytes. if length bytes == 20 then ok (be_value bytes) else err "no address";
  parse_address = λ text. ok 5;
  address_to_string = λ a. "0x05";
  bytes_to_hex_str = λ bytes. "07";
  address_cmp = compare;
  address_cmp_lem = λ a b. refl;
  from_slice_lem = λ bytes h. rw h refl;
}

abbrev pub plain_parsers : Parsers
plain_parsers = record {
  parse_cosmos_address = λ text. ok (replicate 20 1);
  parse_uint = λ text. ok 40;
  parse_signature = λ text. ok (record { v = 27; r = 11; s = 12 });
}
