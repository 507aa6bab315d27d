-- ===== src/Sorting/Keys.antt =====
-- Sorting by a test that looks at a number first.
use mathlib.Core.List.Perm
use mathlib.Core.Logic.Or
use mathlib.Core.List.Pairwise
use mathlib.Core.List.{
  Mem, Pairwise, Pairwise-singleton, mem-cons, mem-cons_of_mem, mem-cons_self, rel_of_Pairwise-cons,
}
use minter_hub.Prelude.{
  Bool, Bool-cases, List, [], ap, arith, false, inl, inr, refl, true, ℕ, ◌∙◌, ◌∷◌, ◌≡◌, ◌≤◌,
}
use minter_hub.Sorting.{insert_sorted, sort}
use minter_hub.Sorting.Laws.{insert_sorted-perm, sort-perm}
use native.Mathlib.Bridge.{le_prop}

module _ {A : Type 0} (less : A → A → Bool) (key : A → ℕ)
    (low : (a b : A) → less a b ≡ true → key a ≤ key b)
    (high : (a b : A) → less a b ≡ false → key b ≤ key a) where
  -- The numbers ascend.
  abbrev pub Ascends : List A → Type 0
  Ascends = Pairwise (λ a b. key a ≤ key b)

  below_all :
      (x y : A) (ys : List A)
      → key x ≤ key y
      → Ascends (y ∷ ys)
      → (z : A) → Mem z (y ∷ ys)
      → key x ≤ key z
  below_all x y ys e s z m =
      Or.elim le_prop (mem-cons.0 m) (λ p. rw p e) (λ t. omega (arith, rel_of_Pairwise-cons s t, e))

  insert_sorted-Ascends : (x : A) (xs : List A) → Ascends xs → Ascends (insert_sorted less x xs)
  unfolding insert_sorted
  insert_sorted-Ascends x [] s = Pairwise-singleton _ x
  insert_sorted-Ascends x (y ∷ ys) s = elim (Bool-cases (less y x)) [
    | inl e ↦ rw e (
        Pairwise.cons
          (λ z m.
            Or.elim le_prop (mem-cons.0 (Perm.subset (insert_sorted-perm less x ys) z m))
              (λ p. rw p (low y x e)) (λ t. rel_of_Pairwise-cons s t))
          (insert_sorted-Ascends x ys (Pairwise.of_cons s)))
    | inr e ↦ rw e (Pairwise.cons (below_all x y ys (high y x e) s) s)
  ]

  pub sort-Ascends : (xs : List A) → Ascends (sort less xs)
  unfolding sort
  sort-Ascends [] = Pairwise.nil
  sort-Ascends (x ∷ xs) = insert_sorted-Ascends x (sort less xs) (sort-Ascends xs)

module _ {A : Type 0} (less other : A → A → Bool) where
  -- The tests do not differ on two elements.
  abbrev pub Agree : A → A → Type 0
  Agree a b = less b a ≡ other b a

  insert_sorted-same :
      (x : A) (xs : List A)
      → ((y : A) → Mem y xs → Agree x y)
      → insert_sorted less x xs ≡ insert_sorted other x xs
  unfolding insert_sorted
  insert_sorted-same x [] same = refl
  insert_sorted-same x (y ∷ ys) same =
      rw (same y mem-cons_self, insert_sorted-same x ys (λ z m. same z (mem-cons_of_mem y m))) refl

  -- Tests that do not differ on the elements of a list sort it in one way.
  pub sort-same : (xs : List A) → Pairwise Agree xs → sort less xs ≡ sort other xs
  unfolding sort
  sort-same [] p = refl
  sort-same (x ∷ xs) p =
      insert_sorted-same x (sort less xs)
        (λ y m. rel_of_Pairwise-cons p (Perm.subset (sort-perm less xs) y m))
      ∙ ap (insert_sorted other x) (sort-same xs (Pairwise.of_cons p))
