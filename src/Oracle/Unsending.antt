-- ===== src/Oracle/Unsending.antt =====
-- The oracle sends no transaction to Ethereum.
use Prim.Native.String.{String}
use minter_hub.Error.{PeggyError}
use minter_hub.Events.{Log}
use minter_hub.Events.BatchExecuted.{TransactionBatchExecutedEvent}
use minter_hub.Events.Transfers.{SendToCosmosEvent, SendToMinterEvent}
use minter_hub.Io.{attempt}
use minter_hub.Io.Sending.{
  >>=-IsQuiet, IsQuiet, attempt-IsQuiet, if-IsQuiet, perform-IsQuiet, pure-IsQuiet, sent,
}
use minter_hub.Oracle.{
  Oracle, claim_events, claim_if_any, get_events, get_last_event_nonce, get_newest_block,
  get_tx_info, process_answers, process_logs, send_ethereum_claims, watch_events,
}
use minter_hub.Prelude.{List, inl, inr, refl, ℕ, ◌⊎◌}
use minter_hub.Valset.{CosmosAddress}

module _ (o : Oracle) where
  pub get_tx_info-IsQuiet : (us : CosmosAddress) → IsQuiet (get_tx_info o us)
  unfolding get_tx_info sent
  get_tx_info-IsQuiet us = >>=-IsQuiet _ _ (perform-IsQuiet _ _ _ (λ h. refl)) λ info.
      >>=-IsQuiet _ _ (pure-IsQuiet _)
        λ numbers. >>=-IsQuiet _ _ (perform-IsQuiet _ _ _ (λ h. refl)) λ chain_id. pure-IsQuiet _

  pub get_events-IsQuiet :
      (start end : ℕ) (signature : String) → IsQuiet (attempt (get_events o start end signature))
  unfolding get_events sent
  get_events-IsQuiet start end signature = attempt-IsQuiet _ (perform-IsQuiet _ _ _ (λ h. refl))

  pub get_last_event_nonce-IsQuiet : (us : CosmosAddress) → IsQuiet (get_last_event_nonce o us)
  unfolding get_last_event_nonce sent
  get_last_event_nonce-IsQuiet us = perform-IsQuiet _ _ _ (λ h. refl)

  pub get_newest_block-IsQuiet : IsQuiet (get_newest_block o)
  unfolding get_newest_block sent
  get_newest_block-IsQuiet = perform-IsQuiet _ _ _ (λ h. refl)

  module _ (deposits : List SendToCosmosEvent) (withdraws : List TransactionBatchExecutedEvent)
      (transfers : List SendToMinterEvent) where
    send_ethereum_claims-IsQuiet : IsQuiet (send_ethereum_claims o deposits withdraws transfers)
    unfolding send_ethereum_claims sent
    send_ethereum_claims-IsQuiet = >>=-IsQuiet _ _ (pure-IsQuiet _) λ us.
        >>=-IsQuiet _ _ (get_tx_info-IsQuiet us) λ info.
          >>=-IsQuiet _ _ (pure-IsQuiet _)
            λ msgs. >>=-IsQuiet _ _ (pure-IsQuiet _) λ tx. perform-IsQuiet _ _ _ (λ h. refl)

    claim_if_any-IsQuiet :
        (us : CosmosAddress) (last : ℕ)
        → IsQuiet (claim_if_any o us last deposits withdraws transfers)
    unfolding claim_if_any claim_events
    claim_if_any-IsQuiet us last =
        if-IsQuiet _ _ _
          (>>=-IsQuiet _ _ send_ethereum_claims-IsQuiet
            λ res. >>=-IsQuiet _ _ (get_last_event_nonce-IsQuiet us) λ nonce. pure-IsQuiet _)
          (pure-IsQuiet _)

  process_logs-IsQuiet :
      (us : CosmosAddress) (valsets batches deposits transfers : List Log)
      → IsQuiet (process_logs o us valsets batches deposits transfers)
  unfolding process_logs
  process_logs-IsQuiet us valset_logs batch_logs deposit_logs transfer_logs =
      >>=-IsQuiet _ _ (pure-IsQuiet _) λ valsets. >>=-IsQuiet _ _ (pure-IsQuiet _) λ withdraws.
        >>=-IsQuiet _ _ (pure-IsQuiet _) λ deposits. >>=-IsQuiet _ _ (pure-IsQuiet _) λ transfers.
          >>=-IsQuiet _ _ (get_last_event_nonce-IsQuiet us)
            λ last. claim_if_any-IsQuiet _ _ _ us last

  process_answers-IsQuiet :
      (us : CosmosAddress) (valsets batches deposits transfers : PeggyError ⊎ List Log)
      → IsQuiet (process_answers o us valsets batches deposits transfers)
  unfolding process_answers
  process_answers-IsQuiet us (inr v) (inr b) (inr d) (inr t) = process_logs-IsQuiet us v b d t
  process_answers-IsQuiet us (inl e) b d t = pure-IsQuiet _
  process_answers-IsQuiet us (inr v) (inl e) d t = pure-IsQuiet _
  process_answers-IsQuiet us (inr v) (inr b) (inl e) t = pure-IsQuiet _
  process_answers-IsQuiet us (inr v) (inr b) (inr d) (inl e) = pure-IsQuiet _

  pub watch_events-IsQuiet : (starting_block : ℕ) → IsQuiet (watch_events o starting_block)
  unfolding watch_events
  watch_events-IsQuiet starting_block = >>=-IsQuiet _ _ (pure-IsQuiet _) λ us.
      >>=-IsQuiet _ _ get_newest_block-IsQuiet λ newest. >>=-IsQuiet _ _ (pure-IsQuiet _) λ latest.
        >>=-IsQuiet _ _ (get_events-IsQuiet _ _ _) λ deposits.
          >>=-IsQuiet _ _ (get_events-IsQuiet _ _ _) λ transfers.
            >>=-IsQuiet _ _ (get_events-IsQuiet _ _ _) λ batches.
              >>=-IsQuiet _ _ (get_events-IsQuiet _ _ _) λ valsets.
                >>=-IsQuiet _ _ (process_answers-IsQuiet us valsets batches deposits transfers)
                  λ done. pure-IsQuiet _
