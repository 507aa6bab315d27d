-- ===== src/Relayer/Rounds.antt =====
-- The loop of orchestrator/relayer/src/main_loop.rs, for a number of rounds. The time that a round
-- waits for the next is left out.
use minter_hub.Error.{PeggyError}
use minter_hub.Io.{History, Io, continue, pure, ◌>>=◌, ◌>>◌}
use minter_hub.Io.Sending.{Sent, sent}
use minter_hub.Outcome.{Outcome, err, ok, panic}
use minter_hub.Prelude.{List, inl, inr, suc, zero, ℕ}
use minter_hub.Relayer.{Relayer, relay_valsets}
use minter_hub.Relayer.Batches.{relay_batches}
use minter_hub.Relayer.Batches.Nonces.{IsRound, relay_batches-sends}
use minter_hub.Relayer.Relaying.{IsRelayedUpdate, relay_valsets-sends}

module _ (r : Relayer) where
  unfoldable pub relayer_round : Io (Unit {0})
  relayer_round = do relay_valsets r; relay_batches r

  -- `relayer_main_loop`
  unfoldable pub relayer_rounds : ℕ → Io (Unit {0})
  relayer_rounds zero = pure (ok tt)
  relayer_rounds (suc rounds) = relayer_round >>= λ _. relayer_rounds rounds

  -- The transactions that can be sent: steps of updates of the validator set and of submissions of
  -- batches, each from a history of calls.
  pub data Relays (before : List Sent) : List Sent → Type 0 where
    start : Relays before before
    update :
        {sends : List Sent} (h : History)
        → Relays before (sent h)
        → IsRelayedUpdate r h sends
        → Relays before sends
    submit :
        {sends : List Sent} (h : History)
        → Relays before (sent h)
        → IsRound r h sends
        → Relays before sends

  module _ (before : List Sent) where
    -- The function keeps to these steps.
    abbrev Keeps : {A : Type 0} → Io A → Type 0
    Keeps m = (h : History) → Relays before (sent h) → Relays before (sent ((m h).1))

    >>=-Keeps :
        {A B : Type 0} (m : Io A) (f : A → Io B)
        → Keeps m
        → ((a : A) → Keeps (f a))
        → Keeps (m >>= f)
    unfolding ◌>>=◌ continue
    >>=-Keeps {A} {B} m f p q h now = of_result (m h) (p h now)
      where
        of_result :
            (res : Outcome PeggyError A × History)
            → Relays before (sent res.1)
            → Relays before (sent ((continue f res).1))
        of_result (ok a, next) now = q a next now
        of_result (err e, next) now = now
        of_result (panic, next) now = now

    valsets-Keeps : Keeps (relay_valsets r)
    valsets-Keeps h now = elim (relay_valsets-sends r h) [
      | inl quiet ↦ rw quiet now
      | inr sends ↦ Relays.update h now sends
    ]

    batches-Keeps : Keeps (relay_batches r)
    batches-Keeps h now = elim (relay_batches-sends r h) [
      | inl quiet ↦ rw quiet now
      | inr sends ↦ Relays.submit h now sends
    ]

    rounds-Keeps : (rounds : ℕ) → Keeps (relayer_rounds rounds)
    unfolding relayer_rounds relayer_round pure
    rounds-Keeps zero h now = now
    rounds-Keeps (suc rounds) h now =
        >>=-Keeps _ _ (>>=-Keeps _ _ valsets-Keeps (λ _. batches-Keeps)) (λ _. rounds-Keeps rounds)
          h now

  -- However many rounds the relayer makes and whatever fails in them, the transactions that it sends
  -- come from steps of two kinds: an update to a newer validator set that is not small and whose
  -- signatures suffice, or a round of submissions with a nonce of its own for each batch.
  pub relayer_rounds-Relays :
      (rounds : ℕ) (h : History) → Relays (sent h) (sent ((relayer_rounds rounds h).1))
  relayer_rounds-Relays rounds h = rounds-Keeps (sent h) rounds h Relays.start
