-- ===== src/Resync/Retrying.antt =====
-- How the loops of the resync that retry end: with a value, or by a panic.
use Prim.Native.String.{String}
use minter_hub.Error.{PeggyError}
use minter_hub.Io.{History, Io, Request, attempt, caught, continue, perform, pure, ◌>>=◌}
use minter_hub.Io.Running.{>>=_assoc}
use minter_hub.Outcome.{Outcome, err, map_err, ok, panic}
use minter_hub.Prelude.{
  Option, arith, inl, inr, length, none, refl, some, suc, sym, zero, ℕ, ◌+◌, ◌<◌, ◌∙◌, ◌∷◌, ◌≡◌,
  ◌≤◌, ◌⊎◌,
}
use minter_hub.Resync.{retry, retry_or}
use native.Mathlib.Decide.{dec_lt}

-- It has ended with a value, or by a panic.
unfoldable pub HasEnded : {A : Type 0} → Outcome PeggyError (Option A) → Type 0
HasEnded (ok none) = ⊥
HasEnded (ok (some a)) = Unit {0}
HasEnded (err e) = ⊥
HasEnded panic = Unit {0}

-- It is no error.
unfoldable pub Settles : {A : Type 0} → Outcome PeggyError A → Type 0
Settles (ok a) = Unit {0}
Settles (err e) = ⊥
Settles panic = Unit {0}

-- What an attempt of a call returns, by the answer.
abbrev pub Replies :
    {A : Type 0} → (String → PeggyError) → Outcome String A → PeggyError ⊎ A → Type 0
Replies {A} from answer res =
    ((a : A) × (answer ≡ ok a) × (res ≡ inr a))
    ⊎ ((e : String) × (answer ≡ err e) × (res ≡ inl (from e)))

-- An attempt of a call, and what follows it.
pub call-HasEnded :
    {A B : Type 0} (request : Request) (from : String → PeggyError)
    (answer : History → Outcome String A) (f : PeggyError ⊎ A → Io (Option B)) (h : History)
    → ((res : PeggyError ⊎ A) → Replies from (answer h) res → HasEnded ((f res (request ∷ h)).0))
    → HasEnded (((attempt (perform request from answer) >>= f) h).0)
unfolding ◌>>=◌ attempt caught perform continue HasEnded
call-HasEnded {A = A} {B = B} request from answer f h k = of_answer (answer h) k
  where
    of_answer :
        (r : Outcome String A)
        → ((res : PeggyError ⊎ A) → Replies from r res → HasEnded ((f res (request ∷ h)).0))
        → HasEnded ((continue f (caught (map_err from r, request ∷ h))).0)
    of_answer (ok a) k = k (inr a) (inl (a, refl, refl))
    of_answer (err e) k = k (inl (from e)) (inr (e, refl, refl))
    of_answer panic k = tt

pub pure-HasEnded :
    {A B : Type 0} (result : Outcome PeggyError A) (f : A → Io (Option B)) (h : History)
    → Settles result
    → ((a : A) → result ≡ ok a → HasEnded ((f a h).0))
    → HasEnded (((pure result >>= f) h).0)
unfolding ◌>>=◌ pure continue HasEnded Settles
pure-HasEnded (ok a) f h s k = k a refl
pure-HasEnded (err e) f h s k = absurd s
pure-HasEnded panic f h s k = tt

pub returned : {A : Type 0} (a : A) (h : History) → HasEnded ((pure (ok (some a)) h).0)
unfolding HasEnded pure
returned a h = tt

pub panicked : (A : Type 0) (h : History) → HasEnded ((pure {A = Option A} panic h).0)
unfolding HasEnded pure
panicked A h = tt

-- From a number of calls on, the node does not fail.
abbrev pub AnswersAfter : {A : Type 0} → ℕ → (History → Outcome String A) → Type 0
AnswersAfter {A} silent answer = (h : History) → silent ≤ length h → (a : A) × (answer h ≡ ok a)

retry_or-some :
    {A B : Type 0} (again : Io (Option A)) (a : A) (f : Option A → Io B) (h : History)
    → (retry_or again (inr a) >>= f) h ≡ f (some a) h
unfolding retry_or ◌>>=◌ pure continue
retry_or-some again a f h = refl

module _ {A : Type 0} (answer : History → Outcome String A) (silent : ℕ)
    (answers : AnswersAfter silent answer) where
  -- Only an answer before that fails.
  pub failed-early : (h : History) (e : String) → answer h ≡ err e → length h < silent
  failed-early h e failed = elim (dec_lt (length h) silent) [
    | yes early ↦ early
    | no late ↦ let (a, p) = answers h (omega arith) in absurd (impossible (sym failed ∙ p))
  ]
    where
      impossible : {x : String} {a : A} → ◌≡◌ {A = Outcome String A} (err x) (ok a) → ⊥
      impossible p = cc

module _ {A B : Type 0} (request : Request) (from : String → PeggyError)
    (answer : History → Outcome String A) (silent : ℕ) (answers : AnswersAfter silent answer) where
  -- A loop that retries comes to an answer, and the function goes on with it.
  pub retry-HasEnded :
      (attempts : ℕ) (f : Option A → Io (Option B)) (h : History)
      → 0 < attempts
      → silent < length h + attempts
      → ((asked next : History) (a : A) → answer asked ≡ ok a → HasEnded ((f (some a) next).0))
      → HasEnded (((retry attempts (perform request from answer) >>= f) h).0)
  unfolding retry retry_or
  retry-HasEnded zero f h pos enough k = absurd (omega arith)
  retry-HasEnded (suc attempts) f h pos enough k =
      rw
        (>>=_assoc (attempt (perform request from answer))
          (retry_or (retry attempts (perform request from answer))) f h)
        (call-HasEnded request from answer _ h
          λ res replied. decide (retry-HasEnded attempts f (request ∷ h)) res replied)
    where
      again : Io (Option A)
      again = retry attempts (perform request from answer)

      decide :
          (0 < attempts
            → silent < suc (length h) + attempts
            → ((asked next : History) (a : A)
                → answer asked ≡ ok a
                → HasEnded ((f (some a) next).0))
            → HasEnded (((again >>= f) (request ∷ h)).0))
          → (res : PeggyError ⊎ A) → Replies from (answer h) res
          → HasEnded (((retry_or again res >>= f) (request ∷ h)).0)
      decide rest res (inl (a, p, q)) =
          rw q (rw (retry_or-some again a f (request ∷ h)) (k h (request ∷ h) a p))
      decide rest res (inr (e, p, q)) =
          let early = failed-early answer silent answers h e p in
          rw (q, retry_or) (rest (omega arith) (omega arith) k)
