-- ===== src/Valset/Power/Sums.antt =====
-- Sums of a function over the members of a set, which do not depend on the order of the members.
use minter_hub.Dict.{HashSet, contains, difference, intersection}
use minter_hub.Prelude.{
  ==_iff, [], arith, false, if◌then◌else◌, not, refl, sym, true, ℕ, ◌&&◌, ◌++◌, ◌+◌, ◌==◌, ◌||◌,
  ◌∙◌, ◌∷◌, ◌≡◌, ◌≢◌, ◌≤◌,
}

-- No address is listed twice.
abbrev pub Distinct : HashSet → Type 0
Distinct [] = Unit
Distinct (k ∷ s) = (contains k s ≡ false) × Distinct s

abbrev pub sum_over : (ℕ → ℕ) → HashSet → ℕ
sum_over f [] = 0
sum_over f (k ∷ s) = f k + sum_over f s

abbrev remove : ℕ → HashSet → HashSet
remove k [] = []
remove k (j ∷ s) = if k == j then s else j ∷ remove k s

contains-remove_ne : (j k : ℕ) (s : HashSet) → j ≢ k → contains j (remove k s) ≡ contains j s
contains-remove_ne j k [] h = refl
contains-remove_ne j k (i ∷ s) h = ground (arith, contains-remove_ne j k s h)

contains-remove_self : (k : ℕ) (s : HashSet) → Distinct s → contains k (remove k s) ≡ false
contains-remove_self k [] d = refl
contains-remove_self k (i ∷ s) d = ground (arith, contains-remove_self k s d.1)

remove-Distinct : (k : ℕ) (s : HashSet) → Distinct s → Distinct (remove k s)
remove-Distinct k [] d = tt
remove-Distinct k (i ∷ s) d = ground (arith, remove-Distinct k s d.1, contains-remove_ne i k s)

sum_over-remove :
    (f : ℕ → ℕ) (k : ℕ) (s : HashSet)
    → contains k s ≡ true
    → sum_over f s ≡ f k + sum_over f (remove k s)
sum_over-remove f k [] h = cc
sum_over-remove f k (i ∷ s) h = ground (arith, sum_over-remove f k s)

pub contains-head : (k : ℕ) (s : HashSet) → contains k (k ∷ s) ≡ true
contains-head k s = ground arith

pub contains-tail : (j k : ℕ) (s : HashSet) → contains j s ≡ true → contains j (k ∷ s) ≡ true
contains-tail j k s h = ground arith

pub ne_of_contains : (j k : ℕ) (s : HashSet) → contains j s ≡ true → contains k s ≡ false → j ≢ k
ne_of_contains j k s h n e = cc

contains-cons_false :
    (j k : ℕ) (s : HashSet) → j ≢ k → contains j s ≡ false → contains j (k ∷ s) ≡ false
contains-cons_false j k s n h = ground arith

pub sum_over-zero :
    (f : ℕ → ℕ) (s : HashSet) → ((k : ℕ) → contains k s ≡ true → f k ≡ 0) → sum_over f s ≡ 0
sum_over-zero f [] z = refl
sum_over-zero f (k ∷ s) z =
    omega (arith, z k (contains-head k s), sum_over-zero f s (λ j m. z j (contains-tail j k s m)))

-- A function that is zero outside of `s` has the same sum over every set around `s`.
pub sum_over-around :
    (f : ℕ → ℕ) (s u : HashSet)
    → Distinct s
    → Distinct u
    → ((k : ℕ) → contains k s ≡ true → contains k u ≡ true)
    → ((k : ℕ) → contains k u ≡ true → contains k s ≡ false → f k ≡ 0)
    → sum_over f s ≡ sum_over f u
sum_over-around f [] u ds du sub z = sym (sum_over-zero f u (λ k m. z k m refl))
sum_over-around f (k ∷ s) u ds du sub z =
    let rest =
      sum_over-around f s (remove k u) ds.1 (remove-Distinct k u du)
        (λ j m.
          contains-remove_ne j k u (ne_of_contains j k s m ds.0) ∙ sub j (contains-tail j k s m))
        (λ j m n.
          let apart : j ≢ k = ne_of_contains j k (remove k u) m (contains-remove_self k u du) in
          z j (sym (contains-remove_ne j k u apart) ∙ m) (contains-cons_false j k s apart n)) in
    omega (arith, rest, sum_over-remove f k u (sub k (contains-head k s)))

pub sum_over-append :
    (f : ℕ → ℕ) (s t : HashSet) → sum_over f (s ++ t) ≡ sum_over f s + sum_over f t
sum_over-append f [] t = omega arith
sum_over-append f (k ∷ s) t = omega (arith, sum_over-append f s t)

-- The members of `s` are those that `t` has and those that it lacks.
pub sum_over-split :
    (f : ℕ → ℕ) (s t : HashSet)
    → sum_over f (intersection s t) + sum_over f (difference s t) ≡ sum_over f s
sum_over-split f [] t = refl
sum_over-split f (k ∷ s) t = ground (arith, sum_over-split f s t)

pub contains-append : (k : ℕ) (s t : HashSet) → contains k (s ++ t) ≡ (contains k s || contains k t)
contains-append k [] t = refl
contains-append k (j ∷ s) t = ground (arith, contains-append k s t)

pub contains-difference :
    (k : ℕ) (s t : HashSet) → contains k (difference s t) ≡ (contains k s && not (contains k t))
contains-difference k [] t = refl
contains-difference k (j ∷ s) t = ground (arith, contains-difference k s t)

pub contains-intersection :
    (k : ℕ) (s t : HashSet) → contains k (intersection s t) ≡ (contains k s && contains k t)
contains-intersection k [] t = refl
contains-intersection k (j ∷ s) t = ground (arith, contains-intersection k s t)

difference-Distinct : (s t : HashSet) → Distinct s → Distinct (difference s t)
difference-Distinct [] t d = tt
difference-Distinct (k ∷ s) t d =
    ground (arith, difference-Distinct s t d.1, contains-difference k s t)

append-Distinct :
    (s t : HashSet)
    → Distinct s
    → Distinct t
    → ((k : ℕ) → contains k s ≡ true → contains k t ≡ false)
    → Distinct (s ++ t)
append-Distinct [] t ds dt apart = dt
append-Distinct (k ∷ s) t ds dt apart =
    let rest = append-Distinct s t ds.1 dt (λ j m. apart j (contains-tail j k s m)) in
    ground (arith, rest, contains-append k s t, apart k (contains-head k s))

-- Both sets together, each member once.
abbrev pub union : HashSet → HashSet → HashSet
union s t = s ++ difference t s

pub union-Distinct : (s t : HashSet) → Distinct s → Distinct t → Distinct (union s t)
union-Distinct s t ds dt =
    append-Distinct s (difference t s) ds (difference-Distinct t s dt)
      (λ k m. ground (arith, contains-difference k t s))

pub contains-union :
    (k : ℕ) (s t : HashSet) → contains k (union s t) ≡ (contains k s || contains k t)
contains-union k s t =
    ground (arith, contains-append k s (difference t s), contains-difference k t s)

pub sum_over-le_add :
    (f g h : ℕ → ℕ) (s : HashSet)
    → ((k : ℕ) → f k ≤ g k + h k)
    → sum_over f s ≤ sum_over g s + sum_over h s
sum_over-le_add f g h [] p = omega arith
sum_over-le_add f g h (k ∷ s) p = omega (arith, p k, sum_over-le_add f g h s p)

pub sum_over-eq_zero :
    (f : ℕ → ℕ) (k : ℕ) (s : HashSet) → sum_over f s ≡ 0 → contains k s ≡ true → f k ≡ 0
sum_over-eq_zero f k [] z m = cc
sum_over-eq_zero f k (j ∷ s) z m = ground (arith, sum_over-eq_zero f k s, ==_iff k j)
