-- ===== src/Resync.antt =====
-- orchestrator/orchestrator/src/oracle_resync.rs: where the oracle starts to watch. The loops that
-- retry without an end are given a number of attempts; they return `none` when it is used up.
pub mod Quiet
pub mod Unsending
pub mod Retrying
pub mod Ending
pub mod Locating
pub mod Finding
mod Tests
use minter_hub.Error.{PeggyError}
use minter_hub.Events.{Log}
use minter_hub.Events.BatchExecuted.{batch_executed_from_log}
use minter_hub.Events.Transfers.{send_to_cosmos_from_log, send_to_minter_from_log}
use minter_hub.Io.{Io, attempt, pure, ◌>>=◌, ◌>>◌}
use minter_hub.Oracle.{Oracle, get_events, get_last_event_nonce, get_newest_block}
use minter_hub.Outcome.{Outcome, bind_outcome, err, ok, panic, unwrap}
use minter_hub.Prelude.{
  List, Option, [], if◌then◌else◌, inl, inr, ltb, none, some, suc, zero, ℕ, ◌-◌, ◌==◌, ◌∷◌, ◌⊎◌,
}
use minter_hub.Valset.{CosmosAddress}

abbrev pub blocks_to_search : ℕ
blocks_to_search = 50000

-- `end_search`
unfoldable pub window_start : ℕ → ℕ
window_start current_block =
    if ltb current_block blocks_to_search then 0 else current_block - blocks_to_search

-- `while res.is_err() { res = m().await }`
unfoldable pub retry_or : {A : Type 0} → Io (Option A) → PeggyError ⊎ A → Io (Option A)
retry_or again (inl e) = again
retry_or again (inr a) = pure (ok (some a))

unfoldable pub retry : {A : Type 0} → ℕ → Io A → Io (Option A)
retry zero m = pure (ok none)
retry (suc attempts) m = attempt m >>= retry_or (retry attempts m)

-- `event_nonce == last_event_nonce && event.block_number.is_some()`
unfoldable pub matched_block : ℕ → Option ℕ → ℕ → Option ℕ
matched_block last_event_nonce block event_nonce =
    if event_nonce == last_event_nonce then block else none

-- The `match` on an event: one that does not parse is only logged.
unfoldable pub check_event : ℕ → Option ℕ → Outcome PeggyError ℕ → Outcome PeggyError (Option ℕ)
check_event last_event_nonce block (ok event_nonce) =
    ok (matched_block last_event_nonce block event_nonce)
check_event last_event_nonce block (err e) = ok none
check_event last_event_nonce block panic = panic

-- The early `return`.
unfoldable pub return_or : Outcome PeggyError (Option ℕ) → Option ℕ → Outcome PeggyError (Option ℕ)
return_or others (some block) = ok (some block)
return_or others none = others

-- `for event in events`, by the nonce that an event is parsed to.
unfoldable pub find_event :
    (Log → Outcome PeggyError ℕ) → ℕ → List Log → Outcome PeggyError (Option ℕ)
find_event nonce_of last_event_nonce [] = ok none
find_event nonce_of last_event_nonce (event ∷ rest) =
    bind_outcome (check_event last_event_nonce event.block_number (nonce_of event))
      (return_or (find_event nonce_of last_event_nonce rest))

module _ (o : Oracle) where
  unfoldable pub batch_nonce_of : Log → Outcome PeggyError ℕ
  batch_nonce_of event =
      bind_outcome (batch_executed_from_log o.num o.eth event) λ batch. ok batch.event_nonce

  unfoldable pub deposit_nonce_of : Log → Outcome PeggyError ℕ
  deposit_nonce_of event =
      bind_outcome (send_to_cosmos_from_log o.num o.eth event) λ deposit. ok deposit.event_nonce

  unfoldable pub transfer_nonce_of : Log → Outcome PeggyError ℕ
  transfer_nonce_of event =
      bind_outcome (send_to_minter_from_log o.num o.eth event) λ deposit. ok deposit.event_nonce

  -- The three loops over the events of a window.
  unfoldable pub search_window : ℕ → List Log → List Log → List Log → Outcome PeggyError (Option ℕ)
  search_window last_event_nonce batches deposits transfers =
      bind_outcome (find_event batch_nonce_of last_event_nonce batches) (
        return_or (
          bind_outcome (find_event deposit_nonce_of last_event_nonce deposits)
            (return_or (find_event transfer_nonce_of last_event_nonce transfers))))

  unfoldable pub next_window : Io (Option ℕ) → Option ℕ → Io (Option ℕ)
  next_window next_round (some block) = pure (ok (some block))
  next_window next_round none = next_round

  -- A failed query makes the loop `continue` with the same window.
  unfoldable pub search_answers :
      ℕ
      → Io (Option ℕ)
      → Io (Option ℕ)
      → PeggyError ⊎ List Log
      → PeggyError ⊎ List Log
      → PeggyError ⊎ List Log
      → Io (Option ℕ)
  search_answers last_event_nonce again next_round (inr batches) (inr deposits) (inr transfers) =
      pure (search_window last_event_nonce batches deposits transfers) >>= next_window next_round
  search_answers last_event_nonce again next_round _ _ _ = again

  -- The body of the loop.
  unfoldable pub event_round : ℕ → ℕ → Io (Option ℕ) → Io (Option ℕ) → Io (Option ℕ)
  event_round last_event_nonce current_block again next_round = do
    batches ← attempt (
        get_events o (window_start current_block) current_block
          "TransactionBatchExecutedEvent(uint256,address,address,uint256)")
    deposits ← attempt (
        get_events o (window_start current_block) current_block
          "SendToHubEvent(address,address,bytes32,uint256,uint256)")
    transfers ← attempt (
        get_events o (window_start current_block) current_block
          "SendToMinterEvent(address,address,bytes32,uint256,uint256)")
    search_answers last_event_nonce again next_round batches deposits transfers

  -- `while current_block > 0`, with the `panic!` behind it.
  unfoldable pub search_events : ℕ → ℕ → ℕ → Io (Option ℕ)
  search_events zero last_event_nonce current_block = pure (ok none)
  search_events (suc rounds) last_event_nonce current_block =
      let again = search_events rounds last_event_nonce current_block in
      let next_round = search_events rounds last_event_nonce (window_start current_block) in
      if current_block == 0
      then pure panic
      else event_round last_event_nonce current_block again next_round

  unfoldable pub get_block_number_with_retry : ℕ → Io (Option ℕ)
  get_block_number_with_retry attempts = retry attempts (get_newest_block o)

  unfoldable pub get_last_event_nonce_with_retry : ℕ → CosmosAddress → Io (Option ℕ)
  get_last_event_nonce_with_retry attempts our_cosmos_address =
      retry attempts (get_last_event_nonce o our_cosmos_address)

  -- An oracle whose last nonce is zero starts at the latest block.
  unfoldable pub search_from : ℕ → ℕ → Option ℕ → Io (Option ℕ)
  search_from rounds latest_block none = pure (ok none)
  search_from rounds latest_block (some last_event_nonce) =
      if last_event_nonce == 0
      then pure (ok (some latest_block))
      else search_events rounds last_event_nonce latest_block

  unfoldable pub resync_from : ℕ → CosmosAddress → Option ℕ → Io (Option ℕ)
  resync_from rounds our_cosmos_address none = pure (ok none)
  resync_from rounds our_cosmos_address (some newest) = do
    latest_block ← pure (unwrap (o.num.sub newest 5))
    last_event_nonce ← get_last_event_nonce_with_retry rounds our_cosmos_address
    search_from rounds latest_block last_event_nonce

  unfoldable pub get_last_checked_block : ℕ → CosmosAddress → Io (Option ℕ)
  get_last_checked_block rounds our_cosmos_address =
      get_block_number_with_retry rounds >>= resync_from rounds our_cosmos_address
