-- ===== src/Bytes/Slices.antt =====
-- Slices of a concatenation of pieces of equal length.
use minter_hub.Bytes.{Bytes, concat, slice}
use minter_hub.Outcome.{ok}
use minter_hub.Prelude.{
  All, List, [], ap, arith, drop, get_elem?, length, length-append, length-drop, le→leb, refl, some,
  suc, take, take-append, take-length, zero, ℕ, ◌*◌, ◌++◌, ◌+◌, ◌-◌, ◌<◌, ◌∷◌, ◌≡◌, ◌≤◌,
}
use native.Mathlib.Nat.{zero-add}

drop-append_le : (n : ℕ) (xs ys : Bytes) → n ≤ length xs → drop n (xs ++ ys) ≡ drop n xs ++ ys
drop-append_le zero xs ys h = refl
drop-append_le (suc n) [] ys h = absurd (omega arith)
drop-append_le (suc n) (x ∷ xs) ys h = drop-append_le n xs ys (omega arith)

drop-append_add : (n : ℕ) (xs ys : Bytes) → drop (length xs + n) (xs ++ ys) ≡ drop n ys
drop-append_add n [] ys = rw zero-add
drop-append_add n (x ∷ xs) ys =
    let e : suc (length xs) + n ≡ suc (length xs + n) = omega arith in
    rw e (drop-append_add n xs ys)

-- Every piece has the length of a word of the Ethereum ABI.
abbrev pub AreWords : List Bytes → Type 0
AreWords = All (λ (c : Bytes). length c ≡ 32)

pub length-concat : (cs : List Bytes) → AreWords cs → length (concat cs) ≡ 32 * length cs
length-concat [] h = refl
length-concat (c ∷ cs) h = omega (arith, length-append c (concat cs), length-concat cs h.1, h.0)

-- The end of a word, from its byte `a` on, and its place in the concatenation.
pub take-drop-concat :
    (cs : List Bytes) (i a : ℕ) (c : Bytes)
    → AreWords cs
    → get_elem? cs i ≡ some c
    → a ≤ 32
    → take (32 - a) (drop (32 * i + a) (concat cs)) ≡ drop a c
take-drop-concat [] i a c w e h = cc
take-drop-concat (d ∷ cs) zero a c w e h =
    let k : 32 * 0 + a ≡ a = omega arith in
    let m : 32 - a ≡ length (drop a d) = omega (arith, length-drop a d, w.0) in
    rw
      (
        k,
        drop-append_le a d (concat cs) (omega (arith, w.0)),
        m,
        take-append (drop a d) (concat cs),
      )
      (cc)
take-drop-concat (d ∷ cs) (suc i) a c w e h =
    let k : 32 * suc i + a ≡ length d + (32 * i + a) = omega (arith, w.0) in
    rw (k, drop-append_add (32 * i + a) d (concat cs)) (take-drop-concat cs i a c w.1 e h)

get_elem?-lt : {A : Type 0} (xs : List A) (i : ℕ) (x : A) → get_elem? xs i ≡ some x → i < length xs
get_elem?-lt [] i x e = cc
get_elem?-lt (y ∷ xs) zero x e = omega arith
get_elem?-lt (y ∷ xs) (suc i) x e = omega (arith, get_elem?-lt xs i x e)

pub slice-concat :
    {E : Type 0} (cs : List Bytes) (i a start stop : ℕ) (c : Bytes)
    → AreWords cs
    → get_elem? cs i ≡ some c
    → a ≤ 32
    → start ≡ 32 * i + a
    → stop ≡ 32 * i + 32
    → slice {E = E} (concat cs) start stop ≡ ok (drop a c)
unfolding slice
slice-concat cs i a start stop c w e h p q =
    let below : 32 * i + 32 ≤ length (concat cs) =
      omega (arith, length-concat cs w, get_elem?-lt cs i c e) in
    let m : 32 * i + 32 - (32 * i + a) ≡ 32 - a = omega arith in
    rw
      (
        p,
        q,
        le→leb (32 * i + a) (32 * i + 32) (omega arith),
        le→leb (32 * i + 32) (length (concat cs)) below,
        m,
      )
      (ap ok (take-drop-concat cs i a c w e h))

-- The end of a single word.
pub slice_word :
    {E : Type 0} (a : ℕ) (c : Bytes) → length c ≡ 32 → a ≤ 32 → slice {E = E} c a 32 ≡ ok (drop a c)
unfolding slice
slice_word a c w h =
    let m : 32 - a ≡ length (drop a c) = omega (arith, length-drop a c) in
    rw (le→leb a 32 h, le→leb 32 (length c) (omega arith), m, take-length (drop a c)) refl
