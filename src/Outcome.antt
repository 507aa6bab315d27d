-- ===== src/Outcome.antt =====
-- How a Rust function of the orchestrator ends: with `Ok`, with `Err`, or with a panic (`unwrap`,
-- `assert!`, `expect`, an index out of range, `panic!`).
use minter_hub.Prelude.{
  Bool, List, Option, [], ap, false, if◌then◌else◌, none, refl, some, true, ◌∷◌, ◌≡◌,
}

pub data Outcome (E A : Type 0) : Type 0 where
  ok : A → Outcome E A
  err : E → Outcome E A
  panic : Outcome E A

infixl 5 ◌>>=◌ ◌>>◌
abbrev pub ◌>>=◌ : {E A B : Type 0} → Outcome E A → (A → Outcome E B) → Outcome E B
ok a >>= f = f a
err e >>= f = err e
panic >>= f = panic

-- The same, under a name beside the `>>=` of another type.
abbrev pub bind_outcome : {E A B : Type 0} → Outcome E A → (A → Outcome E B) → Outcome E B
bind_outcome m f = m >>= f

abbrev pub ◌>>◌ : {E B : Type 0} → Outcome E (Unit {0}) → Outcome E B → Outcome E B
m >> k = m >>= λ _. k

module _ {E : Type 0} where
  -- `return Err(e)` unless the test holds.
  abbrev pub guard : Bool → E → Outcome E (Unit {0})
  guard true e = ok tt
  guard false e = err e

  -- `assert!`
  abbrev pub assert : Bool → Outcome E (Unit {0})
  assert true = ok tt
  assert false = panic

module _ {E A : Type 0} where
  -- `Option::unwrap`
  abbrev pub unwrap : Option A → Outcome E A
  unwrap none = panic
  unwrap (some a) = ok a

  -- `Option::ok_or`
  abbrev pub ok_or : Option A → E → Outcome E A
  ok_or none e = err e
  ok_or (some a) e = ok a

-- `Result::unwrap`
abbrev pub unwrap_result : {E F A : Type 0} → Outcome E A → Outcome F A
unwrap_result (ok a) = ok a
unwrap_result (err e) = panic
unwrap_result panic = panic

-- `?` on a result whose error is converted by `From`.
abbrev pub map_err : {E F A : Type 0} → (E → F) → Outcome E A → Outcome F A
map_err f (ok a) = ok a
map_err f (err e) = err (f e)
map_err f panic = panic

-- `for item in input { res.push(f(item)?) }`
unfoldable pub traverse : {E A B : Type 0} → (A → Outcome E B) → List A → Outcome E (List B)
traverse f [] = ok []
traverse f (a ∷ rest) = f a >>= λ b. traverse f rest >>= λ bs. ok (b ∷ bs)

-- The first part of a computation that succeeds, and what it hands on.
pub >>=-parts :
    {E A B : Type 0} (first : Outcome E A) (rest : A → Outcome E B) {result : B}
    → (first >>= rest) ≡ ok result
    → (value : A) × (first ≡ ok value) × (rest value ≡ ok result)
>>=-parts panic rest h = cc
>>=-parts (err e) rest h = cc
>>=-parts (ok value) rest h = (value, refl, h)

-- A guarded computation, by its test.
pub >>=-guard :
    {E A : Type 0} (b : Bool) (e : E) (m : Outcome E A)
    → (guard b e >>= λ _. m) ≡ (if b then m else err e)
>>=-guard true e m = refl
>>=-guard false e m = refl

pub assert-eq-ok : {E : Type 0} (b : Bool) {u : Unit {0}} → assert {E = E} b ≡ ok u → b ≡ true
assert-eq-ok true h = refl
assert-eq-ok false h = cc

pub unwrap_result-eq-ok :
    {E F A : Type 0} (m : Outcome E A) (a : A) → unwrap_result {F = F} m ≡ ok a → m ≡ ok a
unwrap_result-eq-ok (ok b) a h = let e : b ≡ a = cc in ap ok e
unwrap_result-eq-ok (err e) a h = cc
unwrap_result-eq-ok panic a h = cc

pub guard-eq-ok : {E : Type 0} (b : Bool) (e : E) (u : Unit {0}) → guard b e ≡ ok u → b ≡ true
guard-eq-ok true e u h = refl
guard-eq-ok false e u h = cc

pub ok-injective : {E A : Type 0} {x y : A} → ◌≡◌ {A = Outcome E A} (ok x) (ok y) → x ≡ y
ok-injective e = cc

pub ok_some-injective :
    {E A : Type 0} {x y : A} → ◌≡◌ {A = Outcome E (Option A)} (ok (some x)) (ok (some y)) → x ≡ y
ok_some-injective e = cc

pub none-ne-some :
    {E A : Type 0} (x : A) → ¬ (◌≡◌ {A = Outcome E (Option A)} (ok none) (ok (some x)))
none-ne-some x e = cc
