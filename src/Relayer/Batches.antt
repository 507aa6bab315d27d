-- ===== src/Relayer/Batches.antt =====
-- One round of relaying batches, orchestrator/relayer/src/batch_relaying.rs.
pub mod Nonces
pub mod Ascending
use minter_hub.Batches.{TransactionBatch}
use minter_hub.Batches.Derived.{batch_lt}
use minter_hub.Error.{PeggyError}
use minter_hub.Io.{Io, Request, attempt, perform, pure, ◌>>=◌, ◌>>◌}
use minter_hub.Outcome.{ok, panic, unwrap, unwrap_result}
use minter_hub.Prelude.{List, [], if◌then◌else◌, inl, inr, ltb, ℕ, ◌+◌, ◌∷◌, ◌⊎◌}
use minter_hub.Queries.{get_latest_transaction_batches, get_transaction_batch_signatures}
use minter_hub.Relayer.{Relayer, find_latest_valset}
use minter_hub.Sorting.{sort}
use minter_hub.Submit.{get_tx_batch_nonce, send_eth_transaction_batch}
use minter_hub.Valset.{BatchConfirmResponse, EthAddress, Valset}

module _ (r : Relayer) where
  -- Submits a batch with the nonce `nonce + i` if a current validator set was found, and returns the
  -- next `i`; the result of `send_eth_transaction_batch` is dropped.
  unfoldable pub submit_with :
      ℕ → ℕ → TransactionBatch → List BatchConfirmResponse → PeggyError ⊎ Valset → Io ℕ
  submit_with nonce i batch sigs (inl e) = pure (ok i)
  submit_with nonce i batch sigs (inr current_valset) = do
    current_nonce ← pure (unwrap (r.num.add nonce i))
    res ← attempt (
        send_eth_transaction_batch r.num r.encode_call r.world current_valset batch sigs
          r.peggy_contract_address r.ethereum_key current_nonce)
    pure (ok (i + 1))

  unfoldable pub submit_current : ℕ → ℕ → TransactionBatch → List BatchConfirmResponse → Io ℕ
  submit_current nonce i batch sigs =
      attempt (find_latest_valset r) >>= submit_with nonce i batch sigs

  -- A failed query of the last batch is logged, and the `unwrap` behind it panics.
  unfoldable pub submit_if_newer :
      ℕ → ℕ → TransactionBatch → List BatchConfirmResponse → PeggyError ⊎ ℕ → Io ℕ
  submit_if_newer nonce i batch sigs (inl e) = pure panic
  submit_if_newer nonce i batch sigs (inr latest_ethereum_batch) =
      if ltb latest_ethereum_batch batch.nonce
      then submit_current nonce i batch sigs
      else pure (ok i)

  unfoldable pub submit_signed :
      ℕ → ℕ → TransactionBatch → PeggyError ⊎ List BatchConfirmResponse → Io ℕ
  submit_signed nonce i batch (inl e) = pure (ok i)
  submit_signed nonce i batch (inr sigs) =
      attempt (
        get_tx_batch_nonce r.num r.encode_call r.world r.peggy_contract_address
          batch.token_contract)
      >>= submit_if_newer nonce i batch sigs

  -- The body of the loop of `relay_batches`, which returns the next `i`.
  unfoldable pub relay_batch : ℕ → ℕ → TransactionBatch → Io ℕ
  relay_batch nonce i batch =
      attempt (
        get_transaction_batch_signatures r.num r.eth r.parsers r.world batch.nonce
          batch.token_contract)
      >>= submit_signed nonce i batch

  -- The loop. `i` counts the batches of one answer, and is not expected to leave `u32`.
  unfoldable pub relay_each : ℕ → ℕ → List TransactionBatch → Io (Unit {0})
  relay_each nonce i [] = pure (ok tt)
  relay_each nonce i (batch ∷ rest) =
      relay_batch nonce i batch >>= λ next. relay_each nonce next rest

  unfoldable pub relay_sorted : List TransactionBatch → PeggyError ⊎ ℕ → Io (Unit {0})
  relay_sorted latest_batches (inl e) = pure (ok tt)
  relay_sorted latest_batches (inr nonce) = relay_each nonce 0 latest_batches

  unfoldable pub get_count : EthAddress → Io ℕ
  get_count our_ethereum_address =
      perform (Request.transaction_count our_ethereum_address) PeggyError.ethereum_rest_error
        (λ h. r.world.eth_get_transaction_count h our_ethereum_address)

  unfoldable pub relay_answer : EthAddress → PeggyError ⊎ List TransactionBatch → Io (Unit {0})
  relay_answer our_ethereum_address (inl e) = pure (ok tt)
  relay_answer our_ethereum_address (inr latest_batches) =
      attempt (get_count our_ethereum_address)
      >>= relay_sorted (sort (batch_lt r.eth) latest_batches)

  unfoldable pub relay_batches : Io (Unit {0})
  relay_batches = do
    our_ethereum_address ← pure (unwrap_result r.ethereum_key.to_public_key)
    latest_batches ← attempt (get_latest_transaction_batches r.num r.eth r.parsers r.world)
    relay_answer our_ethereum_address latest_batches
