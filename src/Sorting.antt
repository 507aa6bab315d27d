-- ===== src/Sorting.antt =====
-- `slice::sort` of Rust's standard library, which is stable, as a stable insertion sort over the test
-- `<` of the elements.
pub mod Laws
pub mod Keys
use minter_hub.Prelude.{Bool, List, [], if◌then◌else◌, ◌∷◌}

module _ {A : Type 0} (lt : A → A → Bool) where
  -- Before the first element that is not smaller.
  unfoldable pub insert_sorted : A → List A → List A
  insert_sorted x [] = x ∷ []
  insert_sorted x (y ∷ ys) =
      let further = insert_sorted x ys in if lt y x then y ∷ further else x ∷ y ∷ ys

  unfoldable pub sort : List A → List A
  sort [] = []
  sort (x ∷ xs) = insert_sorted x (sort xs)
