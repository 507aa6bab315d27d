-- ===== src/Send/Broadcasting.antt =====
-- What a function broadcasts that sends one message.
-- No message.
use Prim.Native.String.{String}
use minter_hub.Claims.{Coin, PeggyMsg}
use minter_hub.Error.{PeggyError}
use minter_hub.Io.{History, Io, Request, expect, perform, pure, ◌>>=◌}
use minter_hub.Io.Broadcasting.{Adds-zero, AddsAt, broadcasts, pure-AddsAt}
use minter_hub.Io.Running.{>>=-ok_runs, pure-ok}
use minter_hub.Oracle.{Oracle, get_tx_info}
use minter_hub.Oracle.Quiet.{get_tx_info-AddsAt}
use minter_hub.Outcome.{Outcome, ok, unwrap_result, unwrap_result-eq-ok}
use minter_hub.Prelude.{ap, refl, ℕ, ◌∙◌, ◌∷◌, ◌≡◌}
use minter_hub.Send.{sign_and_send, single_msg}
use minter_hub.SignMsg.{StdSignMsg}
use minter_hub.Valset.{CosmosAddress}

abbrev pub None : StdSignMsg → Type 0
None msg = ⊥

-- A function that broadcasts nothing, and the rest behind it, when both end with a result.
pub quiet_first :
    {A B : Type 0} (m : Io A) (f : A → Io B) (h : History) (b : B)
    → ((m >>= f) h).0 ≡ ok b
    → AddsAt None 0 m h
    → (a : A) × (next : History) × ((m h).0 ≡ ok a)
      × (broadcasts next ≡ broadcasts h)
      × (broadcasts (((m >>= f) h).1) ≡ broadcasts ((f a next).1))
      × ((f a next).0 ≡ ok b)
quiet_first m f h b e quiet =
    let (a, p, runs, q) = >>=-ok_runs m f h b e in
    (a, (m h).1, p, Adds-zero None h _ quiet, ap (λ r. broadcasts r.1) runs, q)

pub expect-ok :
    {A : Type 0} (m : Io A) (h : History) (a : A) → (expect m h).0 ≡ ok a → (m h).0 ≡ ok a
unfolding expect
expect-ok m h a e = unwrap_result-eq-ok _ a e

pub expect-broadcasts :
    {A : Type 0} (m : Io A) (h : History) → broadcasts ((expect m h).1) ≡ broadcasts ((m h).1)
unfolding expect
expect-broadcasts m h = refl

perform-broadcasts :
    {A : Type 0} (msg : StdSignMsg) (from : String → PeggyError)
    (answer : History → Outcome String A) (h : History)
    → broadcasts ((perform (Request.broadcast msg) from answer h).1) ≡ msg ∷ broadcasts h
unfolding perform broadcasts
perform-broadcasts msg from answer h = refl

module _ (o : Oracle) where
  sign_and_send-broadcasts :
      (msg : StdSignMsg) (h : History)
      → (sign_and_send o msg h).0 ≡ ok tt
      → broadcasts ((sign_and_send o msg h).1) ≡ msg ∷ broadcasts h
  unfolding sign_and_send
  sign_and_send-broadcasts msg h e =
      let (tx, next, p, same, runs, q) = quiet_first _ _ h tt e (pure-AddsAt None _ h) in
      runs ∙ perform-broadcasts msg _ _ next ∙ ap (λ ms. msg ∷ ms) same

  -- A function that sends one message, which is made for our address.
  abbrev pub send_made : Coin → (CosmosAddress → PeggyMsg) → Io (Unit {0})
  send_made fee make = pure (unwrap_result o.our_address) >>= λ us.
      get_tx_info o us >>= λ info. sign_and_send o (single_msg fee info (make us))

  pub send_made-broadcasts :
      (fee : Coin) (make : CosmosAddress → PeggyMsg) (h : History)
      → (send_made fee make h).0 ≡ ok tt
      → (us : CosmosAddress) × (info : String × ℕ × ℕ) × (o.our_address ≡ ok us)
        × (broadcasts ((send_made fee make h).1) ≡ single_msg fee info (make us) ∷ broadcasts h)
  send_made-broadcasts fee make h e =
      let (us, h₁, p₁, same₁, runs₁, q₁) = quiet_first _ _ h tt e (pure-AddsAt None _ h) in
      let (info, h₂, p₂, same₂, runs₂, q₂) =
        quiet_first _ _ h₁ tt q₁ (get_tx_info-AddsAt None o us h₁) in
      let msg = single_msg fee info (make us) in
      (
        us,
        info,
        unwrap_result-eq-ok _ us (pure-ok _ h us p₁),
        runs₁ ∙ runs₂ ∙ sign_and_send-broadcasts msg h₂ q₂ ∙ ap (λ ms. msg ∷ ms) (same₂ ∙ same₁),
      )
