-- ===== src/Submit/Silent.antt =====
-- Sending to the contract broadcasts nothing to the Cosmos chain.
use Prim.Native.String.{String}
use minter_hub.Batches.{TransactionBatch}
use minter_hub.Bytes.{Bytes}
use minter_hub.Crates.{Num256}
use minter_hub.Error.{PeggyError}
use minter_hub.Ethereum.{Token}
use minter_hub.Io.{World}
use minter_hub.Io.Broadcasting.{broadcasts}
use minter_hub.Io.Silent.{
  >>=-IsSilent, IsSilent, attempt-IsSilent, if-IsSilent, perform-IsSilent, pure-IsSilent,
  query-IsSilent,
}
use minter_hub.Outcome.{Outcome}
use minter_hub.Prelude.{List, inl, inr, leb, refl, ℕ, ◌==◌, ◌⊎◌}
use minter_hub.Submit.{
  EthPrivateKey, await_batch, get_tx_batch_nonce, get_valset_nonce, query_nonce, send_batch_payload,
  send_eth_transaction_batch, send_eth_valset_update, send_valset_payload,
}
use minter_hub.Valset.{BatchConfirmResponse, EthAddress, Valset, ValsetConfirmResponse}

module _ (num : Num256) (encode_call : String → List Token → Outcome String Bytes)
    (web : World) where
  query_nonce-IsSilent :
      (contract : EthAddress) (signature : String) (tokens : List Token)
      → IsSilent (query_nonce num encode_call web contract signature tokens)
  unfolding query_nonce broadcasts
  query_nonce-IsSilent contract signature tokens =
      >>=-IsSilent _ _ (pure-IsSilent _) λ payload. query-IsSilent _ _ _ _ λ h. refl

  pub get_valset_nonce-IsSilent :
      (contract : EthAddress) → IsSilent (get_valset_nonce num encode_call web contract)
  unfolding get_valset_nonce
  get_valset_nonce-IsSilent contract = query_nonce-IsSilent contract _ _

  pub get_tx_batch_nonce-IsSilent :
      (contract erc20 : EthAddress)
      → IsSilent (get_tx_batch_nonce num encode_call web contract erc20)
  unfolding get_tx_batch_nonce
  get_tx_batch_nonce-IsSilent contract erc20 = query_nonce-IsSilent contract _ _

  send_valset_payload-IsSilent :
      (contract : EthAddress) (payload : Bytes)
      → IsSilent (send_valset_payload num encode_call web contract payload)
  unfolding send_valset_payload broadcasts
  send_valset_payload-IsSilent contract payload =
      >>=-IsSilent _ _ (perform-IsSilent _ _ _ (λ h. refl)) λ tx.
        >>=-IsSilent _ _ (perform-IsSilent _ _ _ (λ h. refl))
          λ done. >>=-IsSilent _ _ (get_valset_nonce-IsSilent contract) λ last. pure-IsSilent _

  pub send_eth_valset_update-IsSilent :
      (new_valset old_valset : Valset) (confirms : List ValsetConfirmResponse)
      (contract : EthAddress) (key : EthPrivateKey)
      → IsSilent
          (send_eth_valset_update num encode_call web new_valset old_valset confirms contract key)
  unfolding send_eth_valset_update
  send_eth_valset_update-IsSilent new_valset old_valset confirms contract key =
      >>=-IsSilent _ _ (pure-IsSilent _) λ checked.
        >>=-IsSilent _ _ (pure-IsSilent _) λ eth_address.
          >>=-IsSilent _ _ (pure-IsSilent _) λ payload.
            >>=-IsSilent _ _ (get_valset_nonce-IsSilent contract) λ nonce.
              if-IsSilent (nonce == old_valset.nonce) _ _
                (send_valset_payload-IsSilent contract payload) (pure-IsSilent _)

  await_batch-IsSilent :
      (contract : EthAddress) (batch : TransactionBatch) (result : PeggyError ⊎ ℕ)
      → IsSilent (await_batch num encode_call web contract batch result)
  unfolding await_batch broadcasts
  await_batch-IsSilent contract batch (inl e) = pure-IsSilent _
  await_batch-IsSilent contract batch (inr tx) =
      >>=-IsSilent _ _ (perform-IsSilent _ _ _ (λ h. refl))
        λ done. >>=-IsSilent _ _ (get_tx_batch_nonce-IsSilent contract _) λ last. pure-IsSilent _

  send_batch_payload-IsSilent :
      (contract : EthAddress) (key : EthPrivateKey) (eth_address : EthAddress)
      (batch : TransactionBatch) (nonce : ℕ) (payload : Bytes)
      → IsSilent
          (send_batch_payload num encode_call web contract key eth_address batch nonce payload)
  unfolding send_batch_payload broadcasts
  send_batch_payload-IsSilent contract key eth_address batch nonce payload =
      >>=-IsSilent _ _ (perform-IsSilent _ _ _ (λ h. refl)) λ price.
        >>=-IsSilent _ _ (perform-IsSilent _ _ _ (λ h. refl)) λ network.
          >>=-IsSilent _ _ (pure-IsSilent _) λ signed.
            >>=-IsSilent _ _ (attempt-IsSilent _ (perform-IsSilent _ _ _ (λ h. refl))) λ gas.
              >>=-IsSilent _ _ (attempt-IsSilent _ (perform-IsSilent _ _ _ (λ h. refl)))
                λ result. await_batch-IsSilent contract batch result

  pub send_eth_transaction_batch-IsSilent :
      (current_valset : Valset) (batch : TransactionBatch) (confirms : List BatchConfirmResponse)
      (contract : EthAddress) (key : EthPrivateKey) (nonce : ℕ)
      → IsSilent (
          send_eth_transaction_batch num encode_call web current_valset batch confirms contract key
            nonce)
  unfolding send_eth_transaction_batch
  send_eth_transaction_batch-IsSilent current_valset batch confirms contract key nonce =
      >>=-IsSilent _ _ (pure-IsSilent _) λ eth_address.
        >>=-IsSilent _ _ (pure-IsSilent _) λ payload.
          >>=-IsSilent _ _ (get_tx_batch_nonce-IsSilent contract _) λ before.
            if-IsSilent (leb batch.nonce before) _ _ (pure-IsSilent _)
              (send_batch_payload-IsSilent contract key eth_address batch nonce payload)
