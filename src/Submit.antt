-- ===== src/Submit.antt =====
-- orchestrator/ethereum_peggy/src/valset_update.rs, submit_batch.rs and the queries of utils.rs: what
-- is sent to the contract. The texts of the log are left out, except where their arguments make a
-- call or can panic: the program logs at the level `info`.
pub mod Valsets
pub mod Batches
pub mod Silent
use Prim.Native.String.{String}
use minter_hub.Batches.{TransactionBatch}
use minter_hub.Bytes.{Bytes}
use minter_hub.Crates.{Num256}
use minter_hub.Error.{PeggyError}
use minter_hub.Ethereum.{Token, expect_nonce}
use minter_hub.Ethereum.Payloads.{batch_payload, valset_payload}
use minter_hub.Io.{Io, Request, SendTxOption, World, attempt, perform, pure, ◌>>=◌, ◌>>◌}
use minter_hub.Outcome.{Outcome, assert, map_err, ok, unwrap_result}
use minter_hub.Prelude.{List, [], if◌then◌else◌, inl, inr, leb, ltb, ℕ, ◌==◌, ◌∷◌, ◌⊎◌}
use minter_hub.Valset.{BatchConfirmResponse, EthAddress, Valset, ValsetConfirmResponse}

-- `clarity::PrivateKey`: its address, and the bytes of a signed transaction.
pub record EthPrivateKey : Type 0 where
  pub to_public_key : Outcome String EthAddress
  -- `Transaction::sign(..).to_bytes()` for nonce, gas price, receiver, data and network.
  pub signed_bytes : ℕ → ℕ → EthAddress → Bytes → ℕ → Outcome String Bytes

module _ (num : Num256) (encode_call : String → List Token → Outcome String Bytes)
    (web : World) where
  -- The query of a nonce of the contract.
  unfoldable pub query_nonce : EthAddress → String → List Token → Io ℕ
  query_nonce contract_address signature tokens = do
    payload ← pure (map_err PeggyError.ethereum_rest_error (encode_call signature tokens))
    bytes ←
        perform (Request.call_contract contract_address payload) PeggyError.ethereum_rest_error
          (λ h. web.eth_call h contract_address payload)
    pure (expect_nonce num (num.from_bytes_be bytes))

  unfoldable pub get_valset_nonce : EthAddress → Io ℕ
  get_valset_nonce contract_address = query_nonce contract_address "state_lastValsetNonce()" []

  unfoldable pub get_tx_batch_nonce : EthAddress → EthAddress → Io ℕ
  get_tx_batch_nonce peggy_contract_address erc20_contract_address =
      query_nonce peggy_contract_address "lastBatchNonce(address)"
        (Token.address erc20_contract_address ∷ [])

  unfoldable pub get_peggy_id : EthAddress → Io Bytes
  get_peggy_id contract_address = do
    payload ← pure (map_err PeggyError.ethereum_rest_error (encode_call "state_peggyId()" []))
    perform (Request.call_contract contract_address payload) PeggyError.ethereum_rest_error
        (λ h. web.eth_call h contract_address payload)

  -- `send_eth_valset_update`, after the check of the nonce.
  unfoldable pub send_valset_payload : EthAddress → Bytes → Io (Unit {0})
  send_valset_payload peggy_contract_address payload = do
    tx ←
        perform (Request.send peggy_contract_address payload (SendTxOption.gas_limit 1000000 ∷ []))
          PeggyError.ethereum_rest_error
          (λ h.
            web.send_transaction h peggy_contract_address payload
              (SendTxOption.gas_limit 1000000 ∷ []))
    perform (Request.wait_for tx) PeggyError.ethereum_rest_error
        (λ h. web.wait_for_transaction h tx)
    last_nonce ← get_valset_nonce peggy_contract_address
    pure (ok tt)

  -- `send_eth_valset_update`; the last two arguments are the contract and our key.
  unfoldable pub send_eth_valset_update :
      Valset → Valset → List ValsetConfirmResponse → EthAddress → EthPrivateKey → Io (Unit {0})
  send_eth_valset_update new_valset old_valset confirms peggy_contract_address our_eth_key = do
    pure (assert (ltb old_valset.nonce new_valset.nonce))
    eth_address ← pure (unwrap_result our_eth_key.to_public_key)
    payload ← pure (valset_payload num encode_call new_valset old_valset confirms)
    before_nonce ← get_valset_nonce peggy_contract_address
    if before_nonce == old_valset.nonce
        then send_valset_payload peggy_contract_address payload
        else pure (ok tt)

  -- What `send_eth_transaction_batch` does with the result of sending.
  unfoldable pub await_batch : EthAddress → TransactionBatch → PeggyError ⊎ ℕ → Io (Unit {0})
  await_batch peggy_contract_address batch (inl e) = pure (ok tt)
  await_batch peggy_contract_address batch (inr tx) = do
    perform (Request.wait_for tx) PeggyError.ethereum_rest_error
        (λ h. web.wait_for_transaction h tx)
    last_nonce ← get_tx_batch_nonce peggy_contract_address batch.token_contract
    pure (ok tt)

  abbrev pub batch_options : ℕ → List SendTxOption
  batch_options nonce = SendTxOption.gas_limit 1000000 ∷ SendTxOption.tx_nonce nonce ∷ []

  -- `send_eth_transaction_batch`, after the check of the nonce. A gas estimate that fails or is too
  -- high is only logged.
  unfoldable pub send_batch_payload :
      EthAddress → EthPrivateKey → EthAddress → TransactionBatch → ℕ → Bytes → Io (Unit {0})
  send_batch_payload peggy_contract_address our_eth_key eth_address batch nonce payload = do
    price ← perform Request.gas_price PeggyError.ethereum_rest_error web.eth_gas_price
    network ← perform Request.net_version PeggyError.ethereum_rest_error web.eth_net_version
    signed_bytes ← pure (
        unwrap_result (our_eth_key.signed_bytes nonce price peggy_contract_address payload network))
    estimate ← attempt (
        perform (Request.estimate_gas eth_address peggy_contract_address payload)
          PeggyError.ethereum_rest_error
          (λ h. web.eth_estimate_gas h eth_address peggy_contract_address payload))
    tx_result ← attempt (
        perform (Request.send peggy_contract_address payload (batch_options nonce))
          PeggyError.ethereum_rest_error
          (λ h. web.send_transaction h peggy_contract_address payload (batch_options nonce)))
    await_batch peggy_contract_address batch tx_result

  -- `send_eth_transaction_batch`; the last three arguments are the contract, our key and the nonce
  -- of the Ethereum transaction.
  unfoldable pub send_eth_transaction_batch :
      Valset
      → TransactionBatch
      → List BatchConfirmResponse
      → EthAddress
      → EthPrivateKey
      → ℕ
      → Io (Unit {0})
  send_eth_transaction_batch current_valset batch confirms peggy_contract_address our_eth_key
        nonce =
      do
        eth_address ← pure (unwrap_result our_eth_key.to_public_key)
        payload ← pure (batch_payload num encode_call current_valset batch confirms)
        before_nonce ← get_tx_batch_nonce peggy_contract_address batch.token_contract
        if leb batch.nonce before_nonce
            then pure (ok tt)
            else send_batch_payload peggy_contract_address our_eth_key eth_address batch nonce
                payload
