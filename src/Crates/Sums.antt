-- ===== src/Crates/Sums.antt =====
-- The sum of two `Uint256` that does not panic is their sum.
use minter_hub.Crates.{Num256}
use minter_hub.Error.{PeggyError}
use minter_hub.Outcome.{ok, unwrap}
use minter_hub.Prelude.{ap, arith, none, some, sym, ℕ, ◌+◌, ◌^◌, ◌∙◌, ◌≡◌}
use native.Mathlib.Decide.{dec_lt}

unwrap-some : (a b : ℕ) → unwrap {E = PeggyError} (some a) ≡ ok b → b ≡ a
unwrap-some a b e = cc

unwrap-none : (b : ℕ) → unwrap {E = PeggyError} none ≡ ok b → ⊥
unwrap-none b e = cc

pub add-ok : (num : Num256) (a b c : ℕ) → unwrap {E = PeggyError} (num.add a b) ≡ ok c → c ≡ a + b
add-ok num a b c e = elim (dec_lt (a + b) (2 ^ 256)) [
  | yes fits ↦ unwrap-some (a + b) c (sym (ap unwrap (num.add_fits a b fits)) ∙ e)
  | no large ↦ absurd (unwrap-none c (sym (ap unwrap (num.add_overflows a b (omega arith))) ∙ e))
]
