-- ===== src/Sorting/Laws.antt =====
-- What a stable sort promises, for a test that orders its elements.
use mathlib.Core.List.Perm
use mathlib.Core.Logic.Or
use mathlib.Core.List.Pairwise
use mathlib.Core.List.{
  Mem, Pairwise, Pairwise-singleton, Perm, mem-cons, mem-cons_self, rel_of_Pairwise-cons,
}
use mathlib.Core.Path.{ap₂}
use minter_hub.Prelude.{Bool, Bool-cases, List, [], false, inl, inr, true, ◌↔◌, ◌∷◌, ◌≡◌}
use minter_hub.Sorting.{insert_sorted, sort}

Bool-set : IsSet Bool
Bool-set = hlevel

-- The test is `<` of a total preorder.
pub record Orders {A : Type 0} (lt : A → A → Bool) : Type 0 where
  pub asym : (a b : A) → lt a b ≡ true → lt b a ≡ false
  pub trans : (a b c : A) → lt b a ≡ false → lt c b ≡ false → lt c a ≡ false

module _ {A : Type 0} (lt : A → A → Bool) where
  -- No later element is smaller than an earlier one.
  abbrev pub IsSorted : List A → Type 0
  IsSorted = Pairwise (λ a b. lt b a ≡ false)

  pub insert_sorted-perm : (x : A) (xs : List A) → Perm (insert_sorted lt x xs) (x ∷ xs)
  unfolding insert_sorted
  insert_sorted-perm x [] = Perm.rfl
  insert_sorted-perm x (y ∷ ys) = elim (Bool-cases (lt y x)) [
    | inl e ↦ rw e (Perm.trans (Perm.cons y (insert_sorted-perm x ys)) (Perm.swap x y ys))
    | inr e ↦ rw e Perm.rfl
  ]

  -- Sorting loses nothing and adds nothing.
  pub sort-perm : (xs : List A) → Perm (sort lt xs) xs
  unfolding sort
  sort-perm [] = Perm.rfl
  sort-perm (x ∷ xs) = Perm.trans (insert_sorted-perm x (sort lt xs)) (Perm.cons x (sort-perm xs))

module _ {A : Type 0} (lt : A → A → Bool) (o : Orders lt) where
  below_mem :
      (x y : A) (ys : List A)
      → lt y x ≡ false
      → IsSorted lt (y ∷ ys)
      → (z : A) → Mem z (y ∷ ys)
      → lt z x ≡ false
  below_mem x y ys e s z m =
      Or.elim (Bool-set _ _) (mem-cons.0 m) (λ p. rw p e)
        (λ t. o.trans x y z e (rel_of_Pairwise-cons s t))

  not_below_self : (x : A) → lt x x ≡ false
  not_below_self x = elim (Bool-cases (lt x x)) [ inl e ↦ o.asym x x e | inr e ↦ e ]

  -- No element is smaller than the head of a sorted list that holds it.
  heads : (xs : List A) (x z : A) → IsSorted lt (x ∷ xs) → Mem z (x ∷ xs) → lt z x ≡ false
  heads xs x z s m =
      Or.elim (Bool-set _ _) (mem-cons.0 m) (λ p. rw p (not_below_self x))
        (λ t. rel_of_Pairwise-cons s t)

  insert_sorted-IsSorted :
      (x : A) (xs : List A) → IsSorted lt xs → IsSorted lt (insert_sorted lt x xs)
  unfolding insert_sorted
  insert_sorted-IsSorted x [] s = Pairwise-singleton _ x
  insert_sorted-IsSorted x (y ∷ ys) s = elim (Bool-cases (lt y x)) [
    | inl e ↦ rw e (
        Pairwise.cons
          (λ z m.
            Or.elim (Bool-set _ _) (mem-cons.0 (Perm.subset (insert_sorted-perm lt x ys) z m))
              (λ p. rw p (o.asym y x e)) (λ t. rel_of_Pairwise-cons s t))
          (insert_sorted-IsSorted x ys (Pairwise.of_cons s)))
    | inr e ↦ rw e (Pairwise.cons (below_mem x y ys e s) s)
  ]

  pub sort-IsSorted : (xs : List A) → IsSorted lt (sort lt xs)
  unfolding sort
  sort-IsSorted [] = Pairwise.nil
  sort-IsSorted (x ∷ xs) = insert_sorted-IsSorted x (sort lt xs) (sort-IsSorted xs)

  -- Two sorted lists with the same elements are one list, if elements that are not ordered are equal.
  pub IsSorted-eq_of_perm :
      ((a b : A) → lt a b ≡ false → lt b a ≡ false → a ≡ b)
      → (xs ys : List A) → IsSorted lt xs
      → IsSorted lt ys
      → Perm xs ys
      → xs ≡ ys
  IsSorted-eq_of_perm same [] ys s t p = Perm.nil-eq p
  IsSorted-eq_of_perm same (x ∷ xs) [] s t p = Perm.eq-nil p
  IsSorted-eq_of_perm same (x ∷ xs) (y ∷ ys) s t p =
      let first : x ≡ y =
        same x y (heads ys y x t (Perm.subset p x mem-cons_self))
          (heads xs x y s (Perm.subset (Perm.symm p) y mem-cons_self)) in
      let tails = Perm.cons_inv (Perm.trans p (Perm.symm (Perm.cons' first Perm.rfl))) in
      ap₂ ◌∷◌ first (IsSorted-eq_of_perm same xs ys (Pairwise.of_cons s) (Pairwise.of_cons t) tails)

  -- Two lists sort to the same list exactly when they hold the same elements.
  pub sort-eq_iff_perm :
      ((a b : A) → lt a b ≡ false → lt b a ≡ false → a ≡ b)
      → (xs ys : List A) → (sort lt xs ≡ sort lt ys) ↔ Perm xs ys
  sort-eq_iff_perm same xs ys = (
    λ e. Perm.trans (Perm.symm (sort-perm lt xs)) (rw e (sort-perm lt ys)),
    λ p.
        IsSorted-eq_of_perm same (sort lt xs) (sort lt ys) (sort-IsSorted xs) (sort-IsSorted ys)
          (Perm.trans (sort-perm lt xs) (Perm.trans p (Perm.symm (sort-perm lt ys)))),
  )
