-- ===== src/MainLoop/Tests.antt =====
-- The loops at a concrete node and a concrete chain.
use minter_hub.Bytes.{be_bytes, be_value, slice}
use minter_hub.Claims.{claim_msgs, deposit_claim_from_event, minter_request}
use minter_hub.Crates.Examples.{byte_count}
use minter_hub.Ethereum.{downcast_nonce, pad_to_8}
use minter_hub.Events.{address_of_topic, keep_later}
use minter_hub.Events.BatchExecuted.{batch_executed_from_logs, batches_after}
use minter_hub.Events.Transfers.{
  deposits_after, send_to_cosmos_from_log, send_to_cosmos_from_logs, send_to_minter_from_logs,
  transfers_after,
}
use minter_hub.Events.ValsetUpdated.{valset_updated_from_logs}
use minter_hub.Io.{History, attempt, caught, continue, perform, pure, ◌>>=◌}
use minter_hub.Io.Broadcasting.{broadcasts}
use minter_hub.MainLoop.{
  eth_oracle_main_loop, eth_signer_main_loop, get_latest_block_number,
  get_oldest_unsigned_transaction_batch, get_oldest_unsigned_valset, log_blocks, next_block,
  oracle_from, oracle_round, oracle_rounds, sign_pending_batch, sign_pending_valset, signer_round,
  signer_rounds, signer_with,
}
use minter_hub.MainLoop.Covering.{
  Chain, IsCovered, eth_oracle_main_loop-Chain, oracle_rounds-covers,
}
use minter_hub.MainLoop.Pending.{eth_signer_main_loop-broadcasts, valset_msg}
use minter_hub.MainLoop.Signing.{bridge_id}
use minter_hub.Oracle.{
  claim_events, claim_if_any, claims_msg, get_events, get_last_event_nonce, get_newest_block,
  get_tx_info, is_empty, process_answers, process_logs, send_ethereum_claims, watch_events,
}
use minter_hub.Oracle.Examples.{oracle_at}
use minter_hub.Outcome.{ok, traverse}
use minter_hub.Prelude.{List, [], arith, length, refl, replicate, some, ℕ, ◌++◌, ◌∷◌, ◌≡◌}
use minter_hub.Queries.{convert_batch, convert_valset, valset_from_proto}
use minter_hub.Resync.{
  get_block_number_with_retry, get_last_checked_block, get_last_event_nonce_with_retry, resync_from,
  retry, retry_or, search_from,
}
use minter_hub.Send.{send_valset_confirm, sign_and_send}
use minter_hub.Send.Examples.{orchestrator_at}
use minter_hub.SignMsg.{StdSignMsg}
use minter_hub.Sorting.{insert_sorted, sort}
use minter_hub.Submit.{get_peggy_id}
use minter_hub.Valset.{CosmosAddress, Valset}

covered : (oracle_rounds (orchestrator_at 2) 1 100 []).0 ≡ ok 115
unfolding oracle_rounds oracle_round log_blocks get_latest_block_number next_block watch_events
    get_newest_block get_events process_answers process_logs claim_if_any claim_events
    send_ethereum_claims get_tx_info claims_msg get_last_event_nonce is_empty ◌>>=◌ continue pure
    perform attempt caught valset_updated_from_logs batch_executed_from_logs
    send_to_cosmos_from_logs send_to_minter_from_logs send_to_cosmos_from_log traverse
    deposits_after batches_after transfers_after keep_later claim_msgs deposit_claim_from_event
    minter_request sort insert_sorted address_of_topic slice be_value be_bytes downcast_nonce
    pad_to_8 byte_count
covered = refl

oracle_rounds-covers_example : IsCovered (orchestrator_at 2) 110
oracle_rounds-covers_example =
    oracle_rounds-covers (orchestrator_at 2) 1 100 [] 115 110 covered (omega arith) (omega arith)

looped : (eth_oracle_main_loop (orchestrator_at 4) 1 1 []).0 ≡ ok (some 115)
unfolding eth_oracle_main_loop oracle_from get_last_checked_block get_block_number_with_retry retry
    retry_or resync_from get_last_event_nonce_with_retry search_from oracle_rounds oracle_round
    log_blocks get_latest_block_number next_block watch_events get_newest_block get_events
    process_answers process_logs claim_if_any claim_events send_ethereum_claims get_tx_info
    claims_msg get_last_event_nonce is_empty ◌>>=◌ continue pure perform attempt caught
    valset_updated_from_logs batch_executed_from_logs send_to_cosmos_from_logs
    send_to_minter_from_logs send_to_cosmos_from_log traverse deposits_after batches_after
    transfers_after keep_later claim_msgs deposit_claim_from_event minter_request sort insert_sorted
    address_of_topic slice be_value be_bytes downcast_nonce pad_to_8 byte_count
looped = refl

eth_oracle_main_loop-Chain_example :
    (us : CosmosAddress) × (first : ℕ) × (asked : History) × ((orchestrator_at 4).oracle.our_address
      ≡ ok us)
    × ((get_last_checked_block (orchestrator_at 4).oracle 1 us asked).0 ≡ ok (some first))
    × Chain (orchestrator_at 4) first 115
eth_oracle_main_loop-Chain_example =
    eth_oracle_main_loop-Chain (orchestrator_at 4) 1 1 [] 115 looped

-- The signer confirms the set that is pending, in each of two rounds.
signed_rounds : length (broadcasts ((eth_signer_main_loop (orchestrator_at 0) 2 []).1)) ≡ 2
unfolding eth_signer_main_loop signer_with signer_rounds signer_round log_blocks
    get_latest_block_number get_newest_block get_oldest_unsigned_valset convert_valset
    valset_from_proto traverse sign_pending_valset send_valset_confirm get_tx_info sign_and_send
    get_oldest_unsigned_transaction_batch convert_batch sign_pending_batch get_peggy_id ◌>>=◌
    continue pure perform attempt caught broadcasts
signed_rounds = refl

-- The history behind each query of the first round.
abbrev identified : History
identified = (bridge_id (orchestrator_at 0) []).1

abbrev logged : History
logged = (log_blocks (orchestrator_at 0) identified).1

abbrev asked : History
asked = (get_oldest_unsigned_valset (orchestrator_at 0) (replicate 20 2) logged).1

abbrev told : History
told = (get_tx_info (oracle_at 0) (replicate 20 2) asked).1

abbrev pending_set : Valset
pending_set = record { nonce = 4; members = [] }

contract_identified : bridge_id (orchestrator_at 0) [] ≡ (ok [], identified)
unfolding get_peggy_id ◌>>=◌ continue pure perform
contract_identified = refl

blocks_logged : log_blocks (orchestrator_at 0) identified ≡ (ok tt, logged)
unfolding log_blocks get_latest_block_number get_newest_block ◌>>=◌ continue pure perform attempt
    caught
blocks_logged = refl

set_pending :
    get_oldest_unsigned_valset (orchestrator_at 0) (replicate 20 2) logged
    ≡ (ok (some pending_set), asked)
unfolding get_oldest_unsigned_valset convert_valset valset_from_proto traverse ◌>>=◌ continue pure
    perform
set_pending = refl

account_told : get_tx_info (oracle_at 0) (replicate 20 2) asked ≡ (ok ("mhub", 4, 8), told)
unfolding get_tx_info ◌>>=◌ continue pure perform
account_told = refl

eth_signer_main_loop-broadcasts_example :
    (later : List StdSignMsg) × (broadcasts ((eth_signer_main_loop (orchestrator_at 0) 2 []).1)
      ≡ later
        ++ (valset_msg (orchestrator_at 0) (replicate 20 2) 5 "hub" pending_set ("mhub", 4, 8)
            ∷ broadcasts []))
eth_signer_main_loop-broadcasts_example =
    eth_signer_main_loop-broadcasts (orchestrator_at 0) (replicate 20 2) 5 "hub" pending_set
      ("mhub", 4, 8) [] refl refl refl 1 [] identified logged asked told [] contract_identified refl
      blocks_logged set_pending account_told
