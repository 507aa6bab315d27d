-- ===== src/Crates/Texts.antt =====
-- Texts of numbers that are read back, for the crates whose texts the theorems need: a number is as
-- many strokes and a stop.
use Prim.Native.Char.{code}
use Prim.Native.String.{String}
use minter_hub.Prelude.{
  List, [], ap, arith, false, refl, suc, true, zero, ℕ, ◌+◌, ◌==◌, ◌∙◌, ◌∷◌, ◌≡◌,
}

unfoldable pub strokes : ℕ → String → String
strokes zero s = String.◌∷◌ ";" s
strokes (suc n) s = String.◌∷◌ "|" (strokes n s)

unfoldable pub write_numbers : List ℕ → String
write_numbers [] = String.[]
write_numbers (n ∷ rest) = strokes n (write_numbers rest)

unfoldable pub read_from : ℕ → String → List ℕ
read_from read String.[] = []
read_from read (String.◌∷◌ c s) = elim (code c == b'|') [
  | true ↦ read_from (suc read) s
  | false ↦ read ∷ read_from 0 s
]

strokes-read : (n read : ℕ) (s : String) → read_from read (strokes n s) ≡ (n + read) ∷ read_from 0 s
unfolding strokes read_from
strokes-read zero read s = ap (λ k. k ∷ read_from 0 s) (omega arith)
strokes-read (suc n) read s =
    strokes-read n (suc read) s ∙ ap (λ k. k ∷ read_from 0 s) (omega arith)

pub write_numbers-read : (numbers : List ℕ) → read_from 0 (write_numbers numbers) ≡ numbers
unfolding write_numbers read_from
write_numbers-read [] = refl
write_numbers-read (n ∷ rest) =
    strokes-read n 0 (write_numbers rest)
    ∙ ap (λ k. k ∷ read_from 0 (write_numbers rest)) (omega arith)
    ∙ ap (λ ns. n ∷ ns) (write_numbers-read rest)
