-- ===== src/MainLoop/Unsending.antt =====
-- The loops of the oracle and of the signer send no transaction to Ethereum.
use Prim.Native.String.{String}
use minter_hub.Batches.{TransactionBatch}
use minter_hub.Bytes.{Bytes}
use minter_hub.Error.{PeggyError}
use minter_hub.Io.Sending.{
  >>=-IsQuiet, IsQuiet, attempt-IsQuiet, perform-IsQuiet, pure-IsQuiet, sent,
}
use minter_hub.MainLoop.{
  eth_oracle_main_loop, eth_signer_main_loop, get_latest_block_number,
  get_oldest_unsigned_transaction_batch, get_oldest_unsigned_valset, log_blocks, oracle_from,
  oracle_round, oracle_rounds, sign_pending_batch, sign_pending_valset, signer_round, signer_rounds,
  signer_with,
}
use minter_hub.Oracle.Unsending.{
  get_newest_block-IsQuiet, get_tx_info-IsQuiet, watch_events-IsQuiet,
}
use minter_hub.Prelude.{Option, inl, inr, none, refl, some, suc, zero, ℕ, ◌⊎◌}
use minter_hub.Resync.Unsending.{get_last_checked_block-IsQuiet}
use minter_hub.Send.{Orchestrator, send_batch_confirm, send_valset_confirm, sign_and_send}
use minter_hub.SignMsg.{StdSignMsg}
use minter_hub.Submit.{get_peggy_id}
use minter_hub.Valset.{CosmosAddress, Valset}

module _ (s : Orchestrator) where
  log_blocks-IsQuiet : IsQuiet (log_blocks s)
  unfolding log_blocks get_latest_block_number sent
  log_blocks-IsQuiet =
      >>=-IsQuiet _ _ (attempt-IsQuiet _ (get_newest_block-IsQuiet s.oracle)) λ eth_block.
        >>=-IsQuiet _ _ (attempt-IsQuiet _ (perform-IsQuiet _ _ _ (λ h. refl)))
          λ cosmos_block. pure-IsQuiet _

  oracle_rounds-IsQuiet : (rounds last : ℕ) → IsQuiet (oracle_rounds s rounds last)
  unfolding oracle_rounds oracle_round
  oracle_rounds-IsQuiet zero last = pure-IsQuiet _
  oracle_rounds-IsQuiet (suc rounds) last =
      >>=-IsQuiet _ _
        (>>=-IsQuiet _ _ log_blocks-IsQuiet λ done.
          >>=-IsQuiet _ _ (attempt-IsQuiet _ (watch_events-IsQuiet s.oracle last))
            λ res. pure-IsQuiet _)
        (oracle_rounds-IsQuiet rounds)

  oracle_from-IsQuiet : (rounds : ℕ) (found : Option ℕ) → IsQuiet (oracle_from s rounds found)
  unfolding oracle_from
  oracle_from-IsQuiet rounds none = pure-IsQuiet _
  oracle_from-IsQuiet rounds (some last) =
      >>=-IsQuiet _ _ (oracle_rounds-IsQuiet rounds last) λ final. pure-IsQuiet _

  pub eth_oracle_main_loop-IsQuiet :
      (attempts rounds : ℕ) → IsQuiet (eth_oracle_main_loop s attempts rounds)
  unfolding eth_oracle_main_loop
  eth_oracle_main_loop-IsQuiet attempts rounds = >>=-IsQuiet _ _ (pure-IsQuiet _) λ us.
      >>=-IsQuiet _ _ (get_last_checked_block-IsQuiet s.oracle attempts us)
        (oracle_from-IsQuiet rounds)

  sign_and_send-IsQuiet : (msg : StdSignMsg) → IsQuiet (sign_and_send s.oracle msg)
  unfolding sign_and_send sent
  sign_and_send-IsQuiet msg =
      >>=-IsQuiet _ _ (pure-IsQuiet _) λ tx. perform-IsQuiet _ _ _ (λ h. refl)

  sign_pending_valset-IsQuiet :
      (peggy_id : String) (res : PeggyError ⊎ Option Valset)
      → IsQuiet (sign_pending_valset s peggy_id res)
  unfolding sign_pending_valset send_valset_confirm
  sign_pending_valset-IsQuiet peggy_id (inl e) = pure-IsQuiet _
  sign_pending_valset-IsQuiet peggy_id (inr none) = pure-IsQuiet _
  sign_pending_valset-IsQuiet peggy_id (inr (some valset)) =
      >>=-IsQuiet _ _
        (attempt-IsQuiet _ (
          >>=-IsQuiet _ _ (pure-IsQuiet _) λ us. >>=-IsQuiet _ _ (pure-IsQuiet _) λ eth.
            >>=-IsQuiet _ _ (get_tx_info-IsQuiet s.oracle us) λ info. sign_and_send-IsQuiet _))
        λ res. pure-IsQuiet _

  sign_pending_batch-IsQuiet :
      (peggy_id : String) (res : PeggyError ⊎ Option TransactionBatch)
      → IsQuiet (sign_pending_batch s peggy_id res)
  unfolding sign_pending_batch send_batch_confirm
  sign_pending_batch-IsQuiet peggy_id (inl e) = pure-IsQuiet _
  sign_pending_batch-IsQuiet peggy_id (inr none) = pure-IsQuiet _
  sign_pending_batch-IsQuiet peggy_id (inr (some batch)) =
      >>=-IsQuiet _ _
        (attempt-IsQuiet _ (
          >>=-IsQuiet _ _ (pure-IsQuiet _) λ us. >>=-IsQuiet _ _ (pure-IsQuiet _) λ eth.
            >>=-IsQuiet _ _ (get_tx_info-IsQuiet s.oracle us)
              λ info. >>=-IsQuiet _ _ (pure-IsQuiet _) λ checkpoint. sign_and_send-IsQuiet _))
        λ res. pure-IsQuiet _

  signer_rounds-IsQuiet :
      (rounds : ℕ) (peggy_id : String) (us : CosmosAddress)
      → IsQuiet (signer_rounds s rounds peggy_id us)
  unfolding signer_rounds signer_round get_oldest_unsigned_valset
      get_oldest_unsigned_transaction_batch sent
  signer_rounds-IsQuiet zero peggy_id us = pure-IsQuiet _
  signer_rounds-IsQuiet (suc rounds) peggy_id us =
      >>=-IsQuiet _ _
        (>>=-IsQuiet _ _ log_blocks-IsQuiet λ logged.
          >>=-IsQuiet _ _
            (attempt-IsQuiet _
              (>>=-IsQuiet _ _ (perform-IsQuiet _ _ _ (λ h. refl)) λ answer. pure-IsQuiet _))
            λ valset. >>=-IsQuiet _ _ (sign_pending_valset-IsQuiet peggy_id valset) λ signed.
              >>=-IsQuiet _ _
                (attempt-IsQuiet _
                  (>>=-IsQuiet _ _ (perform-IsQuiet _ _ _ (λ h. refl)) λ answer. pure-IsQuiet _))
                (sign_pending_batch-IsQuiet peggy_id))
        λ done. signer_rounds-IsQuiet rounds peggy_id us

  pub eth_signer_main_loop-IsQuiet : (rounds : ℕ) → IsQuiet (eth_signer_main_loop s rounds)
  unfolding eth_signer_main_loop get_peggy_id signer_with sent
  eth_signer_main_loop-IsQuiet rounds = >>=-IsQuiet _ _ (pure-IsQuiet _) λ us.
      >>=-IsQuiet _ _ (pure-IsQuiet _) λ eth.
        >>=-IsQuiet _ _
          (attempt-IsQuiet _
            (>>=-IsQuiet _ _ (pure-IsQuiet _) λ payload. perform-IsQuiet _ _ _ (λ h. refl)))
          (with_id us)
    where
      with_id :
          (us : CosmosAddress) (id : PeggyError ⊎ Bytes) → IsQuiet (signer_with s rounds us id)
      with_id us (inl e) = pure-IsQuiet _
      with_id us (inr bytes) =
          >>=-IsQuiet _ _ (pure-IsQuiet _) λ peggy_id. signer_rounds-IsQuiet rounds peggy_id us
