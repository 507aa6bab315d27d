-- ===== src/Io/Silent.antt =====
-- Functions that broadcast nothing.
use Prim.Native.String.{String}
use minter_hub.Error.{PeggyError}
use minter_hub.Io.{History, Io, Request, attempt, perform, pure, ◌>>=◌}
use minter_hub.Io.Broadcasting.{>>=-AddsAt_quiet, Adds-same, Adds-zero, AddsAt, broadcasts}
use minter_hub.Io.Running.{attempt-history}
use minter_hub.Outcome.{Outcome}
use minter_hub.Prelude.{Bool, ap, false, if◌then◌else◌, refl, true, ◌∙◌, ◌∷◌, ◌≡◌}
use minter_hub.SignMsg.{StdSignMsg}

-- From every history on, the function broadcasts nothing.
unfoldable pub IsSilent : {A : Type 0} → Io A → Type 0
IsSilent m = (h : History) → broadcasts ((m h).1) ≡ broadcasts h

-- Any message.
abbrev Any : StdSignMsg → Type 0
Any msg = Unit {0}

same :
    {A : Type 0} (m : Io A) (h : History) → broadcasts ((m h).1) ≡ broadcasts h → AddsAt Any 0 m h
same m h e = Adds-same Any h ((m h).1) e

module _ {A : Type 0} where
  pub pure-IsSilent : (result : Outcome PeggyError A) → IsSilent (pure result)
  unfolding pure IsSilent
  pure-IsSilent result h = refl

  pub perform-IsSilent :
      (request : Request) (from : String → PeggyError) (answer : History → Outcome String A)
      → ((h : History) → broadcasts (request ∷ h) ≡ broadcasts h)
      → IsSilent (perform request from answer)
  unfolding perform IsSilent
  perform-IsSilent request from answer e h = e h

  pub attempt-IsSilent : (m : Io A) → IsSilent m → IsSilent (attempt m)
  unfolding IsSilent
  attempt-IsSilent m q h = ap broadcasts (attempt-history m h) ∙ q h

  pub >>=-IsSilent :
      {B : Type 0} (m : Io A) (f : A → Io B)
      → IsSilent m
      → ((a : A) → IsSilent (f a))
      → IsSilent (m >>= f)
  unfolding IsSilent
  >>=-IsSilent m f q k h =
      Adds-zero Any h _
        (>>=-AddsAt_quiet Any 0 m f h (same m h (q h)) λ a next e. same (f a) next (k a next))

  pub if-IsSilent :
      (test : Bool) (m k : Io A) → IsSilent m → IsSilent k → IsSilent (if test then m else k)
  if-IsSilent true m k p q = p
  if-IsSilent false m k p q = q

-- The answer of a query, converted.
pub query-IsSilent :
    {A B : Type 0} (request : Request) (from : String → PeggyError)
    (answer : History → Outcome String A) (convert : A → Outcome PeggyError B)
    → ((h : History) → broadcasts (request ∷ h) ≡ broadcasts h)
    → IsSilent (perform request from answer >>= λ a. pure (convert a))
query-IsSilent request from answer convert e =
    >>=-IsSilent (perform request from answer) (λ a. pure (convert a))
      (perform-IsSilent request from answer e) λ a. pure-IsSilent (convert a)
