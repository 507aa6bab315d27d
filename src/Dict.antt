-- ===== src/Dict.antt =====
-- `HashMap<EthAddress, V>` and `HashSet<EthAddress>` of Rust's standard library: an association list
-- without repeated keys, and a list without repeats. No result below depends on the order of the
-- entries, which the real containers leave open.
use minter_hub.Prelude.{
  ℕ, ◌≡◌, refl, Bool, false, ◌||◌, Option, none, some, List, [], ◌∷◌, ◌++◌, arith, ◌==◌,
  if◌then◌else◌,
}

abbrev pub HashMap : Type 0 → Type 0
HashMap V = List (ℕ × V)

abbrev pub HashSet : Type 0
HashSet = List ℕ

module _ {V : Type 0} where
  -- `get`
  abbrev pub lookup : ℕ → HashMap V → Option V
  lookup wanted [] = none
  lookup wanted ((key, value) ∷ rest) = if wanted == key then some value else lookup wanted rest

  -- `insert` replaces the value of a key that is there.
  abbrev pub insert : ℕ → V → HashMap V → HashMap V
  insert k v [] = (k, v) ∷ []
  insert k v ((j, w) ∷ d) = if k == j then (k, v) ∷ d else (j, w) ∷ insert k v d

  pub lookup-insert :
      (j k : ℕ) (v : V) (d : HashMap V)
      → lookup j (insert k v d) ≡ (if j == k then some v else lookup j d)
  lookup-insert j k v [] = refl
  lookup-insert j k v ((i, w) ∷ d) = ground (arith, lookup-insert j k v d)

-- `contains`
abbrev pub contains : ℕ → HashSet → Bool
contains k [] = false
contains k (j ∷ s) = k == j || contains k s

abbrev pub add : ℕ → HashSet → HashSet
add k s = if contains k s then s else k ∷ s

-- The members of `s` that `t` has, and those that it lacks.
abbrev pub intersection : HashSet → HashSet → HashSet
intersection [] t = []
intersection (k ∷ s) t = if contains k t then k ∷ intersection s t else intersection s t

abbrev pub difference : HashSet → HashSet → HashSet
difference [] t = []
difference (k ∷ s) t = if contains k t then difference s t else k ∷ difference s t

abbrev pub symmetric_difference : HashSet → HashSet → HashSet
symmetric_difference s t = difference s t ++ difference t s
