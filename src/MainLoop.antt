-- ===== src/MainLoop.antt =====
-- The loops of orchestrator/orchestrator/src/main_loop.rs, for a number of rounds. The time that a
-- round waits for the next is left out.
pub mod Quiet
pub mod Unsending
pub mod Claiming
pub mod Covering
pub mod Confirming
pub mod Signing
pub mod Pending
pub mod Together
mod Tests
use Prim.Native.String.{String}
use minter_hub.Batches.{TransactionBatch}
use minter_hub.Bytes.{Bytes}
use minter_hub.Error.{PeggyError}
use minter_hub.Io.{Io, Request, attempt, perform, pure, ◌>>=◌, ◌>>◌}
use minter_hub.Oracle.{get_newest_block, watch_events}
use minter_hub.Outcome.{ok, unwrap_result}
use minter_hub.Prelude.{Option, inl, inr, none, some, suc, zero, ℕ, ◌⊎◌}
use minter_hub.Queries.{convert_batch, convert_valset}
use minter_hub.Resync.{get_last_checked_block}
use minter_hub.Send.{Orchestrator, send_batch_confirm, send_valset_confirm}
use minter_hub.Submit.{get_peggy_id}
use minter_hub.Valset.{CosmosAddress, Valset}

module _ (s : Orchestrator) where
  -- `contact.get_latest_block_number`
  unfoldable pub get_latest_block_number : Io ℕ
  get_latest_block_number =
      perform Request.latest_cosmos_block PeggyError.cosmos_rest_error s.query_latest_block_number

  -- The queries of the two blocks, which are only logged.
  unfoldable pub log_blocks : Io (Unit {0})
  log_blocks = do
    eth_block ← attempt (get_newest_block s.oracle)
    cosmos_block ← attempt get_latest_block_number
    pure (ok tt)

  -- A failed round starts from the same block again.
  unfoldable pub next_block : ℕ → PeggyError ⊎ ℕ → ℕ
  next_block last_checked_block (inl e) = last_checked_block
  next_block last_checked_block (inr new_block) = new_block

  -- The body of the loop of the oracle.
  unfoldable pub oracle_round : ℕ → Io ℕ
  oracle_round last_checked_block = do
    log_blocks
    res ← attempt (watch_events s.oracle last_checked_block)
    pure (ok (next_block last_checked_block res))

  unfoldable pub oracle_rounds : ℕ → ℕ → Io ℕ
  oracle_rounds zero last_checked_block = pure (ok last_checked_block)
  oracle_rounds (suc rounds) last_checked_block =
      oracle_round last_checked_block >>= oracle_rounds rounds

  unfoldable pub oracle_from : ℕ → Option ℕ → Io (Option ℕ)
  oracle_from rounds none = pure (ok none)
  oracle_from rounds (some last_checked_block) = do
    final ← oracle_rounds rounds last_checked_block
    pure (ok (some final))

  -- `eth_oracle_main_loop` after a number of rounds: the last checked block, or `none` when the
  -- attempts of the resync are used up.
  unfoldable pub eth_oracle_main_loop : ℕ → ℕ → Io (Option ℕ)
  eth_oracle_main_loop attempts rounds = do
    our_cosmos_address ← pure (unwrap_result s.oracle.our_address)
    last_checked_block ← get_last_checked_block s.oracle attempts our_cosmos_address
    oracle_from rounds last_checked_block

  -- `get_oldest_unsigned_valset`
  unfoldable pub get_oldest_unsigned_valset : CosmosAddress → Io (Option Valset)
  get_oldest_unsigned_valset our_cosmos_address = do
    valset ←
        perform (Request.pending_valset_of our_cosmos_address) PeggyError.cosmos_grpc_error
          (λ h. s.query_pending_valset h our_cosmos_address)
    pure (convert_valset s.oracle.num s.oracle.eth s.parsers valset)

  -- `get_oldest_unsigned_transaction_batch`
  unfoldable pub get_oldest_unsigned_transaction_batch :
      CosmosAddress → Io (Option TransactionBatch)
  get_oldest_unsigned_transaction_batch our_cosmos_address = do
    batch ←
        perform (Request.pending_batch_of our_cosmos_address) PeggyError.cosmos_grpc_error
          (λ h. s.query_pending_batch h our_cosmos_address)
    pure (convert_batch s.oracle.num s.oracle.eth s.parsers batch)

  -- The result of `send_valset_confirm` is only logged.
  unfoldable pub sign_pending_valset : String → PeggyError ⊎ Option Valset → Io (Unit {0})
  sign_pending_valset peggy_id (inr (some last_unsigned_valset)) =
      attempt (send_valset_confirm s last_unsigned_valset peggy_id) >>= λ res. pure (ok tt)
  sign_pending_valset peggy_id (inr none) = pure (ok tt)
  sign_pending_valset peggy_id (inl e) = pure (ok tt)

  unfoldable pub sign_pending_batch : String → PeggyError ⊎ Option TransactionBatch → Io (Unit {0})
  sign_pending_batch peggy_id (inr (some last_unsigned_batch)) =
      attempt (send_batch_confirm s last_unsigned_batch peggy_id) >>= λ res. pure (ok tt)
  sign_pending_batch peggy_id (inr none) = pure (ok tt)
  sign_pending_batch peggy_id (inl e) = pure (ok tt)

  -- The body of the loop of the signer.
  unfoldable pub signer_round : String → CosmosAddress → Io (Unit {0})
  signer_round peggy_id our_cosmos_address = do
    log_blocks
    valset ← attempt (get_oldest_unsigned_valset our_cosmos_address)
    sign_pending_valset peggy_id valset
    batch ← attempt (get_oldest_unsigned_transaction_batch our_cosmos_address)
    sign_pending_batch peggy_id batch

  unfoldable pub signer_rounds : ℕ → String → CosmosAddress → Io (Unit {0})
  signer_rounds zero peggy_id our_cosmos_address = pure (ok tt)
  signer_rounds (suc rounds) peggy_id our_cosmos_address =
      signer_round peggy_id our_cosmos_address >>= λ _.
      signer_rounds rounds peggy_id our_cosmos_address

  -- Without an identifier of the bridge, the signer returns.
  unfoldable pub signer_with : ℕ → CosmosAddress → PeggyError ⊎ Bytes → Io (Unit {0})
  signer_with rounds our_cosmos_address (inl e) = pure (ok tt)
  signer_with rounds our_cosmos_address (inr bytes) = do
    peggy_id ← pure (unwrap_result (s.from_utf8 bytes))
    signer_rounds rounds peggy_id our_cosmos_address

  -- `eth_signer_main_loop` for a number of rounds.
  unfoldable pub eth_signer_main_loop : ℕ → Io (Unit {0})
  eth_signer_main_loop rounds = do
    our_cosmos_address ← pure (unwrap_result s.oracle.our_address)
    our_ethereum_address ← pure (unwrap_result s.eth_public_key)
    peggy_id ←
        attempt
          (get_peggy_id s.oracle.num s.encode_call s.oracle.world s.oracle.peggy_contract_address)
    signer_with rounds our_cosmos_address peggy_id
