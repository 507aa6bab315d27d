-- ===== src/Io/Running.antt =====
-- Composed functions that return a result.
use Prim.Native.String.{String}
use minter_hub.Error.{PeggyError}
use minter_hub.Io.{History, Io, attempt, caught, continue, pure, ◌>>=◌}
use minter_hub.Outcome.{Outcome, err, ok, panic, unwrap_result, unwrap_result-eq-ok}
use minter_hub.Prelude.{ap, inr, refl, ◌≡◌, ◌⊎◌}

module _ {A B : Type 0} where
  pub pure-runs :
      (result : Outcome PeggyError A) (f : A → Io B) (h : History) (a : A)
      → result ≡ ok a
      → (pure result >>= f) h ≡ f a h
  unfolding ◌>>=◌ pure continue
  pure-runs result f h a e = rw e refl

  pub >>=-runs :
      (m : Io A) (f : A → Io B) (h : History) (a : A) → (m h).0 ≡ ok a → (m >>= f) h ≡ f a ((m h).1)
  unfolding ◌>>=◌ continue
  >>=-runs m f h a e = of_result (m h) e
    where
      of_result : (r : Outcome PeggyError A × History) → r.0 ≡ ok a → continue f r ≡ f a r.1
      of_result (result, next) e = rw e refl

  pub >>=-ok :
      (m : Io A) (f : A → Io B) (h : History) (b : B)
      → ((m >>= f) h).0 ≡ ok b
      → (a : A) × ((m h).0 ≡ ok a) × ((f a ((m h).1)).0 ≡ ok b)
  unfolding ◌>>=◌ continue
  >>=-ok m f h b e = of_result (m h) e
    where
      of_result :
          (r : Outcome PeggyError A × History)
          → (continue f r).0 ≡ ok b
          → (a : A) × (r.0 ≡ ok a) × ((f a r.1).0 ≡ ok b)
      of_result (ok a, next) e = (a, refl, e)
      of_result (err e', next) e = cc
      of_result (panic, next) e = cc

pub pure-ok :
    {A : Type 0} (result : Outcome PeggyError A) (h : History) (a : A)
    → (pure result h).0 ≡ ok a
    → result ≡ ok a
unfolding pure
pure-ok result h a e = e

pub attempt-ok :
    {A : Type 0} (m : Io A) (h next : History) (a : A)
    → attempt m h ≡ (ok (inr a), next)
    → (m h).0 ≡ ok a
unfolding attempt caught
attempt-ok {A = A} m h next a e = of_result (m h) e
  where
    of_result : (r : Outcome PeggyError A × History) → caught r ≡ (ok (inr a), next) → r.0 ≡ ok a
    of_result (ok b, next') e = let q : b ≡ a = cc in ap ok q
    of_result (err e', next') e = cc
    of_result (panic, next') e = cc

pub attempt-result :
    {A : Type 0} (m : Io A) (h : History) (a : A) → (attempt m h).0 ≡ ok (inr a) → (m h).0 ≡ ok a
unfolding attempt caught
attempt-result {A = A} m h a e = of_result (m h) e
  where
    of_result : (r : Outcome PeggyError A × History) → (caught r).0 ≡ ok (inr a) → r.0 ≡ ok a
    of_result (ok b, next) e = let q : b ≡ a = cc in ap ok q
    of_result (err e', next) e = cc
    of_result (panic, next) e = cc

pub >>=_assoc :
    {A B C : Type 0} (m : Io A) (f : A → Io B) (g : B → Io C) (h : History)
    → ((m >>= f) >>= g) h ≡ (m >>= λ a. f a >>= g) h
unfolding ◌>>=◌ continue
>>=_assoc {A = A} m f g h = of_result (m h)
  where
    of_result :
        (r : Outcome PeggyError A × History)
        → continue g (continue f r) ≡ continue (λ a. f a >>= g) r
    of_result (ok a, next) = refl
    of_result (err e, next) = refl
    of_result (panic, next) = refl

-- A composed function with a result: the first part has one, and the rest runs behind it.
pub >>=-ok_runs :
    {A B : Type 0} (m : Io A) (f : A → Io B) (h : History) (b : B)
    → ((m >>= f) h).0 ≡ ok b
    → (a : A) × ((m h).0 ≡ ok a) × ((m >>= f) h ≡ f a ((m h).1)) × ((f a ((m h).1)).0 ≡ ok b)
>>=-ok_runs m f h b e = let (a, p, q) = >>=-ok m f h b e in (a, p, >>=-runs m f h a p, q)

-- What `unwrap` has given.
pub unwrapped :
    {A : Type 0} (m : Outcome String A) (h : History) (a : A)
    → (pure (unwrap_result m) h).0 ≡ ok a
    → m ≡ ok a
unwrapped m h a e = unwrap_result-eq-ok m a (pure-ok (unwrap_result m) h a e)

module _ {A : Type 0} (m : Io A) (h : History) (a : A) (next : History) where
  -- A function whose end is known, and the rest behind it.
  pub reaches : {B : Type 0} (f : A → Io B) → m h ≡ (ok a, next) → (m >>= f) h ≡ f a next
  unfolding ◌>>=◌ continue
  reaches f e = rw e refl

  pub attempt-runs :
      {B : Type 0} (f : PeggyError ⊎ A → Io B)
      → m h ≡ (ok a, next)
      → (attempt m >>= f) h ≡ f (inr a) next
  unfolding ◌>>=◌ continue attempt caught
  attempt-runs f e = rw e refl

pub attempt-history : {A : Type 0} (m : Io A) (h : History) → (attempt m h).1 ≡ (m h).1
unfolding attempt caught
attempt-history {A = A} m h = of_result (m h)
  where
    of_result : (r : Outcome PeggyError A × History) → (caught r).1 ≡ r.1
    of_result (ok a, next) = refl
    of_result (err e, next) = refl
    of_result (panic, next) = refl
