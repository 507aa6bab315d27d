-- ===== src/Ethereum/Arrays.antt =====
-- `to_arrays` keeps the signatures: every part of each is passed on, `r` and `s` as words.
use mathlib.Core.List.{reverse-append, reverse-reverse}
use mathlib.Core.Path.{ap₂}
use minter_hub.Bytes.{Bytes, be_value, be_value_from}
use minter_hub.Crates.{Num256}
use minter_hub.Ethereum.{Token, pad_to_32, to_arrays, to_arrays_loop}
use minter_hub.Outcome.{ok}
use minter_hub.Prelude.{
  All, List, [], ap, arith, length, length-append, length-replicate, le→leb, map, refl, replicate,
  reverse, suc, zero, ℕ, ◌++◌, ◌-◌, ◌<◌, ◌^◌, ◌∙◌, ◌∷◌, ◌≡◌, ◌≤◌,
}
use minter_hub.Valset.{PeggySignature}

be_value_from-zeros :
    (n : ℕ) (val : Bytes) → be_value_from 0 (replicate n 0 ++ val) ≡ be_value_from 0 val
be_value_from-zeros zero val = refl
be_value_from-zeros (suc n) val = be_value_from-zeros n val

replicate-snoc : {A : Type 0} (n : ℕ) (a : A) → replicate n a ++ a ∷ [] ≡ a ∷ replicate n a
replicate-snoc zero a = refl
replicate-snoc (suc n) a = ap (◌∷◌ a) (replicate-snoc n a)

reverse-replicate : {A : Type 0} (n : ℕ) (a : A) → reverse (replicate n a) ≡ replicate n a
reverse-replicate zero a = refl
reverse-replicate (suc n) a =
    reverse-append (a ∷ []) (replicate n a)
    ∙ ap (λ xs. xs ++ a ∷ []) (reverse-replicate n a)
    ∙ replicate-snoc n a

length-reverse : {A : Type 0} (xs : List A) → length (reverse xs) ≡ length xs
length-reverse [] = refl
length-reverse (x ∷ xs) =
    ap length (reverse-append (x ∷ []) xs)
    ∙ omega (arith, length-append (reverse xs) (x ∷ []), length-reverse xs)

-- The padding puts zeros in front.
pad_to_32_lem :
    {E : Type 0} (val : Bytes)
    → length val ≤ 32
    → pad_to_32 {E = E} val ≡ ok (replicate (32 - length val) 0 ++ val)
unfolding pad_to_32
pad_to_32_lem val h =
    rw (le→leb (length val) 32 h, length-reverse val)
      (ap ok (
        reverse-append (reverse val) (replicate (32 - length val) 0)
        ∙ ap₂ (λ xs ys. xs ++ ys) (reverse-replicate (32 - length val) 0) (reverse-reverse val)))

-- A number as `to_arrays` writes it.
abbrev pub padded : Num256 → ℕ → Bytes
padded num n = replicate (32 - length (num.to_bytes_be n)) 0 ++ num.to_bytes_be n

pub be_value-padded : (num : Num256) (n : ℕ) → be_value (padded num n) ≡ n
unfolding be_value
be_value-padded num n =
    be_value_from-zeros (32 - length (num.to_bytes_be n)) (num.to_bytes_be n)
    ∙ num.to_bytes_be_value n

pub length-padded : (num : Num256) (n : ℕ) → n < 2 ^ 256 → length (padded num n) ≡ 32
length-padded num n h = omega (
  arith,
  num.to_bytes_be_short n 31 (omega arith),
  length-append (replicate (32 - length (num.to_bytes_be n)) 0) (num.to_bytes_be n),
  length-replicate {A = ℕ} (32 - length (num.to_bytes_be n)) 0,
)

-- The parts of the signature fit a `Uint256`.
abbrev pub FitsWord : PeggySignature → Type 0
FitsWord e = (e.r < 2 ^ 256) × (e.s < 2 ^ 256)

to_arrays_loop_lem :
    {E : Type 0} (num : Num256) (input : List PeggySignature)
    → All FitsWord input
    → to_arrays_loop {E = E} num input
      ≡ ok (
        map (λ (e : PeggySignature). e.eth_address) input,
        map (λ (e : PeggySignature). e.power) input,
        map (λ (e : PeggySignature). e.v) input,
        map (λ (e : PeggySignature). padded num e.r) input,
        map (λ (e : PeggySignature). padded num e.s) input,
      )
unfolding to_arrays_loop
to_arrays_loop_lem num [] h = refl
to_arrays_loop_lem {E} num (e ∷ rest) h = ground (
  arith,
  pad_to_32_lem {E = E} (num.to_bytes_be e.r) (num.to_bytes_be_short e.r 31 (omega arith)),
  pad_to_32_lem {E = E} (num.to_bytes_be e.s) (num.to_bytes_be_short e.s 31 (omega arith)),
  to_arrays_loop_lem {E = E} num rest h.1,
)

-- For signatures whose `r` and `s` are below 2 ^ 256, `to_arrays` does not panic and returns the
-- addresses, powers, `v`, `r` and `s` of the signatures in their order, `r` and `s` as byte strings.
pub to_arrays_lem :
    {E : Type 0} (num : Num256) (input : List PeggySignature)
    → All FitsWord input
    → to_arrays {E = E} num input
      ≡ ok (record {
        addresses = map (λ (e : PeggySignature). e.eth_address) input;
        powers = map (λ (e : PeggySignature). e.power) input;
        v = Token.dynamic_uint (map (λ (e : PeggySignature). e.v) input);
        r = Token.dynamic_bytes (map (λ (e : PeggySignature). padded num e.r) input);
        s = Token.dynamic_bytes (map (λ (e : PeggySignature). padded num e.s) input);
      })
unfolding to_arrays
to_arrays_lem num input h = rw (to_arrays_loop_lem num input h) refl
