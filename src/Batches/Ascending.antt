-- ===== src/Batches/Ascending.antt =====
-- Sorting batches by their derived order sorts them by nonce.
use mathlib.Core.List.Pairwise
use Prim.Native.Nat.{Ordering, compare}
use mathlib.Core.List.{Pairwise}
use minter_hub.Batches.{TransactionBatch}
use minter_hub.Batches.Derived.{batch_cmp, batch_lt, nonce_lt}
use minter_hub.Crates.{Clarity}
use minter_hub.Prelude.{Bool, List, arith, false, refl, sym, true, ◌<◌, ◌∙◌, ◌≡◌, ◌≤◌}
use minter_hub.Sorting.{sort}
use minter_hub.Sorting.Keys.{sort-Ascends, sort-same}
use native.Mathlib.Decide.{dec_lt}

true-ne-false : ◌≡◌ {A = Bool} true false → ⊥
true-ne-false e = cc

module _ (eth : Clarity) where
  batch_lt-below : (a b : TransactionBatch) → a.nonce < b.nonce → batch_lt eth a b ≡ true
  unfolding batch_lt batch_cmp
  batch_lt-below a b h = let e : compare a.nonce b.nonce ≡ Ordering.lt = ground arith in rw e refl

  batch_lt-above : (a b : TransactionBatch) → b.nonce < a.nonce → batch_lt eth a b ≡ false
  unfolding batch_lt batch_cmp
  batch_lt-above a b h = let e : compare a.nonce b.nonce ≡ Ordering.gt = ground arith in rw e refl

  low : (a b : TransactionBatch) → batch_lt eth a b ≡ true → a.nonce ≤ b.nonce
  low a b e = elim (dec_lt b.nonce a.nonce) [
    | yes above ↦ absurd (true-ne-false (sym e ∙ batch_lt-above a b above))
    | no below ↦ omega arith
  ]

  high : (a b : TransactionBatch) → batch_lt eth a b ≡ false → b.nonce ≤ a.nonce
  high a b e = elim (dec_lt a.nonce b.nonce) [
    | yes below ↦ absurd (true-ne-false (sym (batch_lt-below a b below) ∙ e))
    | no above ↦ omega arith
  ]

  pub sort-ascending :
      (batches : List TransactionBatch)
      → Pairwise (λ a b. a.nonce ≤ b.nonce) (sort (batch_lt eth) batches)
  sort-ascending = sort-Ascends (batch_lt eth) (λ batch. batch.nonce) low high

  agree : (a b : TransactionBatch) → ¬ (a.nonce ≡ b.nonce) → batch_lt eth b a ≡ nonce_lt b a
  unfolding nonce_lt
  agree a b different = elim (dec_lt b.nonce a.nonce) [
    | yes below ↦
        let e : compare b.nonce a.nonce ≡ Ordering.lt = ground arith in
        batch_lt-below b a below ∙ sym (rw e refl)
    | no above ↦
        let more : a.nonce < b.nonce = omega arith in
        let e : compare b.nonce a.nonce ≡ Ordering.gt = ground arith in
        batch_lt-above b a more ∙ sym (rw e refl)
  ]

  -- Where no two nonces are equal, the derived order and the one of `Ord` sort the batches alike.
  pub sort-by_nonce :
      (batches : List TransactionBatch)
      → Pairwise (λ a b. ¬ (a.nonce ≡ b.nonce)) batches
      → sort (batch_lt eth) batches ≡ sort nonce_lt batches
  sort-by_nonce batches different =
      sort-same (batch_lt eth) nonce_lt batches (Pairwise.imp agree different)
