-- ===== src/Io/Sending.antt =====
-- The transactions that a run sends.
use Prim.Native.String.{String}
use minter_hub.Bytes.{Bytes}
use minter_hub.Error.{PeggyError}
use minter_hub.Io.{
  History, Io, Request, SendTxOption, attempt, caught, continue, perform, pure, ◌>>=◌,
}
use minter_hub.Outcome.{Outcome, err, ok, panic}
use minter_hub.Prelude.{
  Bool, List, [], false, if◌then◌else◌, inl, inr, refl, true, ◌∙◌, ◌∷◌, ◌≡◌, ◌⊎◌,
}
use minter_hub.Valset.{EthAddress}

-- A transaction: its receiver, its data and its options.
abbrev pub Sent : Type 0
Sent = EthAddress × Bytes × List SendTxOption

-- The transactions in a history, the latest first.
unfoldable pub sent : History → List Sent
sent [] = []
sent (Request.send receiver payload options ∷ rest) = (receiver, payload, options) ∷ sent rest
sent (_ ∷ rest) = sent rest

-- The function sends nothing.
abbrev pub IsQuiet : {A : Type 0} → Io A → Type 0
IsQuiet m = (h : History) → sent ((m h).1) ≡ sent h

-- From a history, the function sends nothing, or the transactions after it satisfy the predicate.
abbrev pub SendsOnly : {A : Type 0} → (List Sent → Type 0) → Io A → History → Type 0
SendsOnly Q m h = (sent ((m h).1) ≡ sent h) ⊎ Q (sent ((m h).1))

module _ {A : Type 0} where
  pub perform-IsQuiet :
      (request : Request) (from : String → PeggyError) (answer : History → Outcome String A)
      → ((h : History) → sent (request ∷ h) ≡ sent h)
      → IsQuiet (perform request from answer)
  unfolding perform
  perform-IsQuiet request from answer q h = q h

  pub perform-sent :
      (receiver : EthAddress) (payload : Bytes) (options : List SendTxOption)
      (from : String → PeggyError) (answer : History → Outcome String A) (h : History)
      → sent ((perform (Request.send receiver payload options) from answer h).1)
        ≡ (receiver, payload, options) ∷ sent h
  unfolding perform sent
  perform-sent receiver payload options from answer h = refl

  pub pure-IsQuiet : (result : Outcome PeggyError A) → IsQuiet (pure result)
  unfolding pure
  pure-IsQuiet result h = refl

  pub attempt-sent : (m : Io A) (h : History) → sent ((attempt m h).1) ≡ sent ((m h).1)
  unfolding attempt caught
  attempt-sent m h = caught_sent (m h)
    where
      caught_sent : (r : Outcome PeggyError A × History) → sent ((caught r).1) ≡ sent r.1
      caught_sent (ok a, next) = refl
      caught_sent (err e, next) = refl
      caught_sent (panic, next) = refl

  pub attempt-IsQuiet : (m : Io A) → IsQuiet m → IsQuiet (attempt m)
  attempt-IsQuiet m q h = attempt-sent m h ∙ q h

module _ {A B : Type 0} where
  continue-sent :
      (Q : List Sent → Type 0) (f : A → Io B) (start : List Sent)
      (r : Outcome PeggyError A × History)
      → sent r.1 ≡ start
      → ((a : A) (next : History)
          → r ≡ (ok a, next)
          → sent next ≡ start
          → (sent ((f a next).1) ≡ sent next) ⊎ Q (sent ((f a next).1)))
      → (sent ((continue f r).1) ≡ start) ⊎ Q (sent ((continue f r).1))
  unfolding continue
  continue-sent Q f start (ok a, next) e k = elim (k a next refl e) [
    | inl quiet ↦ inl (quiet ∙ e)
    | inr sends ↦ inr sends
  ]
  continue-sent Q f start (err e', next) e k = inl e
  continue-sent Q f start (panic, next) e k = inl e

  -- A quiet function first, and then one whose sending is known for each of its results.
  pub >>=-SendsOnly :
      (Q : List Sent → Type 0) (m : Io A) (f : A → Io B) (h : History)
      → IsQuiet m
      → ((a : A) (next : History)
          → m h ≡ (ok a, next)
          → sent next ≡ sent h
          → SendsOnly Q (f a) next)
      → SendsOnly Q (m >>= f) h
  unfolding ◌>>=◌
  >>=-SendsOnly Q m f h q k = continue-sent Q f (sent h) (m h) (q h) k

  pub >>=-IsQuiet :
      (m : Io A) (f : A → Io B) → IsQuiet m → ((a : A) → IsQuiet (f a)) → IsQuiet (m >>= f)
  >>=-IsQuiet m f q k h = elim (>>=-SendsOnly (λ _. ⊥) m f h q (λ a next e s. inl (k a next))) [
    | inl quiet ↦ quiet
    | inr impossible ↦ absurd impossible
  ]

  -- A result that needs no call first.
  pub pure-SendsOnly :
      (Q : List Sent → Type 0) (result : Outcome PeggyError A) (f : A → Io B) (h : History)
      → ((a : A) → result ≡ ok a → SendsOnly Q (f a) h)
      → SendsOnly Q (pure result >>= f) h
  unfolding ◌>>=◌ pure continue
  pure-SendsOnly Q (ok a) f h k = k a refl
  pure-SendsOnly Q (err e) f h k = inl refl
  pure-SendsOnly Q panic f h k = inl refl

  -- Nothing is sent after the first function.
  pub >>=-sent :
      (m : Io A) (f : A → Io B) (h : History)
      → ((a : A) → IsQuiet (f a))
      → sent (((m >>= f) h).1) ≡ sent ((m h).1)
  unfolding ◌>>=◌ continue
  >>=-sent m f h k = after (m h)
    where
      after : (r : Outcome PeggyError A × History) → sent ((continue f r).1) ≡ sent r.1
      after (ok a, next) = k a next
      after (err e, next) = refl
      after (panic, next) = refl

pub if-IsQuiet :
    {A : Type 0} (test : Bool) (m k : Io A)
    → IsQuiet m
    → IsQuiet k
    → IsQuiet (if test then m else k)
if-IsQuiet true m k p q = p
if-IsQuiet false m k p q = q
