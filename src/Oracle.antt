-- ===== src/Oracle.antt =====
-- `check_for_events` of orchestrator/orchestrator/src/ethereum_event_watcher.rs, with
-- `send_ethereum_claims` of orchestrator/cosmos_peggy/src/send.rs. The client of the Cosmos node
-- (orchestrator/contact) is given by its answers.
pub mod Watching
pub mod Quiet
pub mod Unsending
pub mod Claiming
pub mod Examples
mod Tests
use Prim.Native.String.{String}
use minter_hub.Bytes.{Bytes}
use minter_hub.Claims.{Coin, PeggyMsg, claim_msgs}
use minter_hub.Crates.{Clarity, Num256}
use minter_hub.Error.{PeggyError}
use minter_hub.Events.{Log}
use minter_hub.Events.BatchExecuted.{
  TransactionBatchExecutedEvent, batch_executed_from_logs, batches_after,
}
use minter_hub.Events.Transfers.{
  SendToCosmosEvent, SendToMinterEvent, deposits_after, send_to_cosmos_from_logs,
  send_to_minter_from_logs, transfers_after,
}
use minter_hub.Events.ValsetUpdated.{valset_updated_from_logs}
use minter_hub.Io.{History, Io, Request, World, attempt, perform, pure, ◌>>=◌, ◌>>◌}
use minter_hub.Outcome.{Outcome, err, guard, ok, ok_or, unwrap, unwrap_result}
use minter_hub.Prelude.{
  Bool, List, Option, [], false, if◌then◌else◌, inr, not, true, ℕ, ◌==◌, ◌||◌, ◌∷◌, ◌⊎◌,
}
use minter_hub.SignMsg.{StdSignMsg}
use minter_hub.Valset.{CosmosAddress, EthAddress}

pub record Oracle : Type 0 where
  pub num : Num256
  pub eth : Clarity
  pub world : World
  pub peggy_contract_address : EthAddress
  -- The address of our key, and its signature.
  pub our_address : Outcome String CosmosAddress
  pub sign_std_msg : StdSignMsg → Outcome String Bytes
  pub fee : Coin
  pub query_last_event_nonce : History → CosmosAddress → Outcome String ℕ
  -- The account number and the sequence, if the account has a value.
  pub get_account_info : History → CosmosAddress → Outcome String (Option (ℕ × ℕ))
  pub get_chain_id : History → Outcome String String
  pub retry_on_block : History → Bytes → Outcome String (Unit {0})

module _ (o : Oracle) where
  unfoldable pub get_last_event_nonce : CosmosAddress → Io ℕ
  get_last_event_nonce our_cosmos_address =
      perform (Request.event_nonce_of our_cosmos_address) PeggyError.cosmos_grpc_error
        (λ h. o.query_last_event_nonce h our_cosmos_address)

  -- `maybe_get_optional_tx_info` with nothing given.
  unfoldable pub get_tx_info : CosmosAddress → Io (String × ℕ × ℕ)
  get_tx_info our_cosmos_address = do
    info ←
        perform (Request.account_info our_cosmos_address) PeggyError.cosmos_rest_error
          (λ h. o.get_account_info h our_cosmos_address)
    numbers ← pure (ok_or info (PeggyError.cosmos_rest_error "NoToken"))
    chain_id ← perform Request.latest_cosmos_block PeggyError.cosmos_rest_error o.get_chain_id
    pure (ok (chain_id, numbers.0, numbers.1))

  unfoldable pub claims_msg : String × ℕ × ℕ → List PeggyMsg → StdSignMsg
  claims_msg (chain_id, account_number, sequence) msgs = record {
    chain_id = chain_id;
    account_number = account_number;
    sequence = sequence;
    fee = record { amount = o.fee ∷ []; gas = 500000000 };
    msgs = msgs;
    memo = "";
  }

  unfoldable pub send_ethereum_claims :
      List SendToCosmosEvent
      → List TransactionBatchExecutedEvent
      → List SendToMinterEvent
      → Io (Unit {0})
  send_ethereum_claims deposits withdraws transfers = do
    our_cosmos_address ← pure (unwrap_result o.our_address)
    tx_info ← get_tx_info our_cosmos_address
    msgs ← pure (claim_msgs o.num our_cosmos_address deposits withdraws transfers)
    tx ← pure (unwrap_result (o.sign_std_msg (claims_msg tx_info msgs)))
    perform (Request.broadcast (claims_msg tx_info msgs)) PeggyError.cosmos_rest_error
        (λ h. o.retry_on_block h tx)

  unfoldable pub get_events : ℕ → ℕ → String → Io (List Log)
  get_events starting_block latest_block signature =
      perform (Request.get_logs starting_block latest_block o.peggy_contract_address signature)
        PeggyError.ethereum_rest_error
        (λ h.
          o.world.check_for_events h starting_block latest_block o.peggy_contract_address signature)

  unfoldable pub is_empty : {A : Type 0} → List A → Bool
  is_empty [] = true
  is_empty (x ∷ xs) = false

  -- The claims of the events, and the check that they were processed.
  unfoldable pub claim_events :
      CosmosAddress
      → ℕ
      → List SendToCosmosEvent
      → List TransactionBatchExecutedEvent
      → List SendToMinterEvent
      → Io (Unit {0})
  claim_events our_cosmos_address last_event_nonce deposits withdraws transfers = do
    res ← send_ethereum_claims deposits withdraws transfers
    new_event_nonce ← get_last_event_nonce our_cosmos_address
    pure (
        guard (not (new_event_nonce == last_event_nonce)) (
          PeggyError.invalid_bridge_state_error "Claims did not process, trying again in a moment"))

  unfoldable pub claim_if_any :
      CosmosAddress
      → ℕ
      → List SendToCosmosEvent
      → List TransactionBatchExecutedEvent
      → List SendToMinterEvent
      → Io (Unit {0})
  claim_if_any our_cosmos_address last_event_nonce deposits withdraws transfers =
      if not (is_empty deposits) || not (is_empty withdraws) || not (is_empty transfers)
      then claim_events our_cosmos_address last_event_nonce deposits withdraws transfers
      else pure (ok tt)

  -- What is done with the logs, when all four queries returned them.
  unfoldable pub process_logs :
      CosmosAddress → List Log → List Log → List Log → List Log → Io (Unit {0})
  process_logs our_cosmos_address valset_logs batch_logs deposit_logs transfer_logs = do
    valsets ← pure (valset_updated_from_logs o.num o.eth valset_logs)
    withdraws ← pure (batch_executed_from_logs o.num o.eth batch_logs)
    deposits ← pure (send_to_cosmos_from_logs o.num o.eth deposit_logs)
    transfers ← pure (send_to_minter_from_logs o.num o.eth transfer_logs)
    last_event_nonce ← get_last_event_nonce our_cosmos_address
    claim_if_any our_cosmos_address last_event_nonce (deposits_after last_event_nonce deposits)
        (batches_after last_event_nonce withdraws) (transfers_after last_event_nonce transfers)

  unfoldable pub process_answers :
      CosmosAddress
      → PeggyError ⊎ List Log
      → PeggyError ⊎ List Log
      → PeggyError ⊎ List Log
      → PeggyError ⊎ List Log
      → Io (Unit {0})
  process_answers our_cosmos_address (inr valsets) (inr batches) (inr deposits) (inr transfers) =
      process_logs our_cosmos_address valsets batches deposits transfers
  process_answers our_cosmos_address _ _ _ _ =
      pure (err (PeggyError.ethereum_rest_error "Failed to get logs!"))

  unfoldable pub get_newest_block : Io ℕ
  get_newest_block =
      perform Request.block_number PeggyError.ethereum_rest_error o.world.eth_block_number

  -- `check_for_events`
  unfoldable pub watch_events : ℕ → Io ℕ
  watch_events starting_block = do
    our_cosmos_address ← pure (unwrap_result o.our_address)
    newest ← get_newest_block
    latest_block ← pure (unwrap (o.num.sub newest 5))
    deposits ← attempt (
        get_events starting_block latest_block
          "SendToHubEvent(address,address,bytes32,uint256,uint256)")
    transfers ← attempt (
        get_events starting_block latest_block
          "SendToMinterEvent(address,address,bytes32,uint256,uint256)")
    batches ← attempt (
        get_events starting_block latest_block
          "TransactionBatchExecutedEvent(uint256,address,address,uint256)")
    valsets ←
        attempt
          (get_events starting_block latest_block "ValsetUpdatedEvent(uint256,address[],uint256[])")
    done ← process_answers our_cosmos_address valsets batches deposits transfers
    pure (ok latest_block)
