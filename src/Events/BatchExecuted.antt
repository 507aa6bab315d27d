-- ===== src/Events/BatchExecuted.antt =====
-- `TransactionBatchExecutedEvent` of orchestrator/peggy_utils/src/types/ethereum_events.rs.
pub mod Laws
use Prim.Native.String.{String}
use minter_hub.Crates.{Clarity, Num256}
use minter_hub.Error.{PeggyError}
use minter_hub.Events.{Log, address_of_topic, keep_later, topic, tx_hash_of}
use minter_hub.Outcome.{Outcome, guard, ok, traverse, ◌>>=◌, ◌>>◌}
use minter_hub.Prelude.{List, ltb, not, ℕ, ◌||◌}
use minter_hub.Valset.{EthAddress}
use minter_hub.Words.{u64_max}

pub record TransactionBatchExecutedEvent : Type 0 where
  pub batch_nonce : ℕ
  pub erc20 : EthAddress
  pub sender : EthAddress
  pub event_nonce : ℕ
  pub tx_hash : String

module _ (num : Num256) (eth : Clarity) where
  -- `TransactionBatchExecutedEvent::from_log`
  unfoldable pub batch_executed_from_log : Log → Outcome PeggyError TransactionBatchExecutedEvent
  batch_executed_from_log input = do
    batch_nonce_data ← topic input 1
    erc20_data ← topic input 2
    sender_data ← topic input 3
    let batch_nonce = num.from_bytes_be batch_nonce_data
    erc20 ← address_of_topic eth erc20_data
    sender ← address_of_topic eth sender_data
    let event_nonce = num.from_bytes_be input.log_data
    guard (not (ltb u64_max event_nonce || ltb u64_max batch_nonce))
        (PeggyError.invalid_event_log_error "Event nonce overflow, probably incorrect parsing")
    tx_hash ← tx_hash_of eth input
    ok (record {
      batch_nonce = batch_nonce;
      erc20 = erc20;
      sender = sender;
      event_nonce = event_nonce;
      tx_hash = tx_hash;
    })

  unfoldable pub batch_executed_from_logs :
      List Log → Outcome PeggyError (List TransactionBatchExecutedEvent)
  batch_executed_from_logs input = traverse batch_executed_from_log input

-- `TransactionBatchExecutedEvent::filter_by_event_nonce`
unfoldable pub batches_after :
    ℕ → List TransactionBatchExecutedEvent → List TransactionBatchExecutedEvent
batches_after event_nonce input = keep_later (λ e. e.event_nonce) event_nonce input
