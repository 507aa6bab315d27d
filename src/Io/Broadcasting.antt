-- ===== src/Io/Broadcasting.antt =====
-- The messages that a run broadcasts to the Cosmos chain.
use Prim.Native.String.{String}
use mathlib.Core.List.{append_assoc}
use minter_hub.Error.{PeggyError}
use minter_hub.Io.{History, Io, Request, attempt, caught, continue, perform, pure, ◌>>=◌}
use minter_hub.Outcome.{Outcome, err, ok, panic}
use minter_hub.Prelude.{
  All, List, [], ap, arith, length, length-append, refl, sym, ℕ, ◌++◌, ◌+◌, ◌∙◌, ◌∷◌, ◌≡◌, ◌≤◌,
}
use minter_hub.SignMsg.{StdSignMsg}

-- The messages in a history, the latest first.
unfoldable pub broadcasts : History → List StdSignMsg
broadcasts [] = []
broadcasts (Request.broadcast msg ∷ rest) = msg ∷ broadcasts rest
broadcasts (_ ∷ rest) = broadcasts rest

pub All-append :
    (P : StdSignMsg → Type 0) (xs ys : List StdSignMsg) → All P xs → All P ys → All P (xs ++ ys)
All-append P [] ys p q = q
All-append P (x ∷ xs) ys p q = (p.0, All-append P xs ys p.1 q)

pub All-weaken :
    (P Q : StdSignMsg → Type 0) (xs : List StdSignMsg)
    → ((msg : StdSignMsg) → P msg → Q msg)
    → All P xs
    → All Q xs
All-weaken P Q [] f p = tt
All-weaken P Q (x ∷ xs) f p = (f x p.0, All-weaken P Q xs f p.1)

module _ (P : StdSignMsg → Type 0) where
  -- From one history to a later one, at most so many messages are broadcast, and all of them satisfy
  -- the predicate.
  unfoldable pub Adds : ℕ → History → History → Type 0
  Adds most before after =
      (new : List StdSignMsg) × (broadcasts after ≡ new ++ broadcasts before)
      × All P new
      × (length new ≤ most)

  pub Adds-refl : (h : History) → Adds 0 h h
  unfolding Adds
  Adds-refl h = ([], refl, tt, omega arith)

  pub Adds-trans : (k l : ℕ) (a b c : History) → Adds k a b → Adds l b c → Adds (k + l) a c
  unfolding Adds
  Adds-trans k l a b c (new, e, all, few) (new', e', all', few') = (
    new' ++ new,
    e' ∙ ap (λ xs. new' ++ xs) e ∙ sym (append_assoc new' new (broadcasts a)),
    All-append P new' new all' all,
    omega (arith, length-append new' new),
  )

  pub Adds-weaken : (k l : ℕ) (a b : History) → k ≤ l → Adds k a b → Adds l a b
  unfolding Adds
  Adds-weaken k l a b p (new, e, all, few) = (new, e, all, omega arith)

  pub Adds-same : (a b : History) → broadcasts b ≡ broadcasts a → Adds 0 a b
  unfolding Adds
  Adds-same a b e = ([], e, tt, omega arith)

  pub Adds-broadcast :
      (msg : StdSignMsg) (h : History) → P msg → Adds 1 h (Request.broadcast msg ∷ h)
  unfolding Adds broadcasts
  Adds-broadcast msg h p = (msg ∷ [], refl, (p, tt), omega arith)

  module _ {A : Type 0} where
    -- From a history, the function adds at most so many.
    abbrev pub AddsAt : ℕ → Io A → History → Type 0
    AddsAt most m h = Adds most h ((m h).1)

    pub perform-AddsAt :
        (request : Request) (from : String → PeggyError) (answer : History → Outcome String A)
        (h : History)
        → broadcasts (request ∷ h) ≡ broadcasts h
        → AddsAt 0 (perform request from answer) h
    unfolding perform
    perform-AddsAt request from answer h e = Adds-same h (request ∷ h) e

    pub broadcast-AddsAt :
        (msg : StdSignMsg) (from : String → PeggyError) (answer : History → Outcome String A)
        (h : History)
        → P msg
        → AddsAt 1 (perform (Request.broadcast msg) from answer) h
    unfolding perform
    broadcast-AddsAt msg from answer h p = Adds-broadcast msg h p

    pub pure-AddsAt : (result : Outcome PeggyError A) (h : History) → AddsAt 0 (pure result) h
    unfolding pure
    pure-AddsAt result h = Adds-refl h

    pub attempt-AddsAt :
        (most : ℕ) (m : Io A) (h : History) → AddsAt most m h → Adds most h ((attempt m h).1)
    unfolding attempt caught
    attempt-AddsAt most m h p = of_result (m h) p
      where
        of_result :
            (r : Outcome PeggyError A × History) → Adds most h r.1 → Adds most h ((caught r).1)
        of_result (ok a, next) p = p
        of_result (err e, next) p = p
        of_result (panic, next) p = p

  module _ {A B : Type 0} where
    pub >>=-AddsAt :
        (k l : ℕ) (m : Io A) (f : A → Io B) (h : History)
        → AddsAt k m h
        → ((a : A) (next : History) → (m h).0 ≡ ok a → AddsAt l (f a) next)
        → AddsAt (k + l) (m >>= f) h
    unfolding ◌>>=◌ continue
    >>=-AddsAt k l m f h p q = of_result (m h) p q
      where
        of_result :
            (r : Outcome PeggyError A × History)
            → Adds k h r.1
            → ((a : A) (next : History) → r.0 ≡ ok a → AddsAt l (f a) next)
            → Adds (k + l) h ((continue f r).1)
        of_result (ok a, next) p q = Adds-trans k l h next _ p (q a next refl)
        of_result (err e, next) p q = Adds-weaken k (k + l) h next (omega arith) p
        of_result (panic, next) p q = Adds-weaken k (k + l) h next (omega arith) p

pub pure-AddsAt_within :
    (P : StdSignMsg → Type 0) {A : Type 0} (most : ℕ) (result : Outcome PeggyError A) (h : History)
    → AddsAt P most (pure result) h
pure-AddsAt_within P most result h = Adds-weaken P 0 most h _ (omega arith) (pure-AddsAt P result h)

module _ (P : StdSignMsg → Type 0) {A B : Type 0} where
  -- A function that broadcasts nothing first.
  pub >>=-AddsAt_quiet :
      (most : ℕ) (m : Io A) (f : A → Io B) (h : History)
      → AddsAt P 0 m h
      → ((a : A) (next : History) → (m h).0 ≡ ok a → AddsAt P most (f a) next)
      → AddsAt P most (m >>= f) h
  >>=-AddsAt_quiet most m f h p q =
      Adds-weaken P (0 + most) most h _ (omega arith) (>>=-AddsAt P 0 most m f h p q)

-- A weaker predicate.
pub Adds-map :
    (P Q : StdSignMsg → Type 0) (most : ℕ) (before after : History)
    → ((msg : StdSignMsg) → P msg → Q msg)
    → Adds P most before after
    → Adds Q most before after
unfolding Adds
Adds-map P Q most before after f (new, e, all, few) = (new, e, All-weaken P Q new f all, few)

-- What adds nothing leaves the messages as they are.
pub Adds-zero :
    (P : StdSignMsg → Type 0) (before after : History)
    → Adds P 0 before after
    → broadcasts after ≡ broadcasts before
unfolding Adds
Adds-zero P before after ([], e, all, few) = e
Adds-zero P before after (x ∷ xs, e, all, few) = absurd (omega arith)

-- What follows a function adds only to what the function has broadcast.
pub >>=-AddsAfter :
    (P : StdSignMsg → Type 0) {A B : Type 0} (most : ℕ) (m : Io A) (f : A → Io B) (h : History)
    → ((a : A) (next : History) → (m h).0 ≡ ok a → AddsAt P most (f a) next)
    → Adds P most ((m h).1) (((m >>= f) h).1)
unfolding ◌>>=◌ continue
>>=-AddsAfter P {A} {B} most m f h p = of_result (m h) p
  where
    of_result :
        (r : Outcome PeggyError A × History)
        → ((a : A) (next : History) → r.0 ≡ ok a → AddsAt P most (f a) next)
        → Adds P most r.1 ((continue f r).1)
    of_result (ok a, next) p = p a next refl
    of_result (err e, next) p = Adds-weaken P 0 most next next (omega arith) (Adds-refl P next)
    of_result (panic, next) p = Adds-weaken P 0 most next next (omega arith) (Adds-refl P next)

-- What a function that broadcasts nothing leaves as it was.
pub quiet_end :
    (P : StdSignMsg → Type 0) {A : Type 0} (m : Io A) (h : History) (a : A) (next : History)
    → AddsAt P 0 m h
    → m h ≡ (ok a, next)
    → broadcasts next ≡ broadcasts h
quiet_end P m h a next quiet e = ap (λ r. broadcasts r.1) (sym e) ∙ Adds-zero P h _ quiet
