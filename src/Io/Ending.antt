-- ===== src/Io/Ending.antt =====
-- What holds of the transactions when a function ends, by how it ends.
use minter_hub.Error.{PeggyError}
use minter_hub.Io.{History, Io, continue, pure, ◌>>=◌}
use minter_hub.Io.Sending.{IsQuiet, Sent, sent}
use minter_hub.Outcome.{Outcome, err, ok, panic}
use minter_hub.Prelude.{List, refl, ◌≡◌}

module _ {A : Type 0} where
  -- The first predicate holds after a result, the second after an error or a panic.
  unfoldable pub Ends :
      (A → List Sent → Type 0) → (List Sent → Type 0) → Outcome PeggyError A × History → Type 0
  Ends P F (ok a, next) = P a (sent next)
  Ends P F (err e, next) = F (sent next)
  Ends P F (panic, next) = F (sent next)

  pub Ends-sent :
      (F : List Sent → Type 0) (r : Outcome PeggyError A × History)
      → Ends (λ _. F) F r
      → F (sent r.1)
  unfolding Ends
  Ends-sent F (ok a, next) p = p
  Ends-sent F (err e, next) p = p
  Ends-sent F (panic, next) p = p

  pub quiet-Ends :
      (P F : List Sent → Type 0) (m : Io A) (h : History)
      → IsQuiet m
      → ((sends : List Sent) → P sends → F sends)
      → P (sent h)
      → Ends (λ _. P) F (m h)
  unfolding Ends
  quiet-Ends P F m h q weaken p = of_result (m h) (q h)
    where
      of_result : (r : Outcome PeggyError A × History) → sent r.1 ≡ sent h → Ends (λ _. P) F r
      of_result (ok a, next) e = rw e p
      of_result (err e', next) e = rw e (weaken (sent h) p)
      of_result (panic, next) e = rw e (weaken (sent h) p)

  -- However a function ends, when its transactions are known.
  pub Ends-any :
      (P : List Sent → Type 0) (F : List Sent → Type 0) (m : Io A) (h : History)
      → ((sends : List Sent) → P sends → F sends)
      → P (sent ((m h).1))
      → Ends (λ _. P) F (m h)
  unfolding Ends
  Ends-any P F m h weaken p = of_result (m h) p
    where
      of_result : (r : Outcome PeggyError A × History) → P (sent r.1) → Ends (λ _. P) F r
      of_result (ok a, next) p = p
      of_result (err e, next) p = weaken (sent next) p
      of_result (panic, next) p = weaken (sent next) p

  pub pure-Ends :
      (P : A → List Sent → Type 0) (F : List Sent → Type 0) (a : A) (h : History)
      → P a (sent h)
      → Ends P F (pure (ok a) h)
  unfolding Ends pure
  pure-Ends P F a h p = p

  pub pure_result-Ends :
      (P : A → List Sent → Type 0) (F : List Sent → Type 0) (result : Outcome PeggyError A)
      (h : History)
      → ((a : A) → result ≡ ok a → P a (sent h))
      → F (sent h)
      → Ends P F (pure result h)
  unfolding Ends pure
  pure_result-Ends P F (ok a) h p q = p a refl
  pure_result-Ends P F (err e) h p q = q
  pure_result-Ends P F panic h p q = q

module _ {A B : Type 0} where
  pub >>=-Ends :
      (P : A → List Sent → Type 0) (Q : B → List Sent → Type 0) (F : List Sent → Type 0) (m : Io A)
      (f : A → Io B) (h : History)
      → Ends P F (m h)
      → ((a : A) (next : History) → P a (sent next) → Ends Q F (f a next))
      → Ends Q F ((m >>= f) h)
  unfolding ◌>>=◌ continue Ends
  >>=-Ends P Q F m f h p k = of_result (m h) p
    where
      of_result : (r : Outcome PeggyError A × History) → Ends P F r → Ends Q F (continue f r)
      of_result (ok a, next) p = k a next p
      of_result (err e, next) p = p
      of_result (panic, next) p = p
