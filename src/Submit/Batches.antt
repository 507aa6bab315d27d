-- ===== src/Submit/Batches.antt =====
-- When `send_eth_transaction_batch` sends a transaction.
use Prim.Native.String.{String}
use minter_hub.Batches.{TransactionBatch}
use minter_hub.Bytes.{Bytes}
use minter_hub.Crates.{Num256}
use minter_hub.Error.{PeggyError}
use minter_hub.Ethereum.{Token}
use minter_hub.Ethereum.Payloads.{batch_payload}
use minter_hub.Io.{History, World}
use minter_hub.Io.Sending.{
  >>=-IsQuiet, >>=-SendsOnly, >>=-sent, IsQuiet, SendsOnly, Sent, attempt-IsQuiet, attempt-sent,
  perform-IsQuiet, perform-sent, pure-IsQuiet, pure-SendsOnly, sent,
}
use minter_hub.Outcome.{>>=-parts, Outcome, ok}
use minter_hub.Prelude.{
  Bool-cases, List, ap, inl, inr, leb, leb→lt, refl, ℕ, ◌<◌, ◌∙◌, ◌∷◌, ◌≡◌, ◌⊎◌,
}
use minter_hub.Submit.{
  EthPrivateKey, await_batch, batch_options, get_tx_batch_nonce, send_batch_payload,
  send_eth_transaction_batch,
}
use minter_hub.Submit.Valsets.{get_tx_batch_nonce-IsQuiet}
use minter_hub.Valset.{BatchConfirmResponse, EthAddress, PeggySignature, Valset}
use minter_hub.Valset.Signing.{order_batch_sigs}

module _ (num : Num256) (encode_call : String → List Token → Outcome String Bytes) (web : World)
    (batch : TransactionBatch) (contract_address : EthAddress) (our_eth_key : EthPrivateKey)
    (nonce : ℕ) where
  -- The transaction that submits a batch.
  abbrev pub batch_sent : Bytes → Sent
  batch_sent payload = (contract_address, payload, batch_options num encode_call web nonce)

  await_batch-IsQuiet :
      (result : PeggyError ⊎ ℕ)
      → IsQuiet (await_batch num encode_call web contract_address batch result)
  unfolding await_batch sent
  await_batch-IsQuiet (inl e) = pure-IsQuiet _
  await_batch-IsQuiet (inr tx) = >>=-IsQuiet _ _ (perform-IsQuiet _ _ _ (λ h. refl)) λ done.
      >>=-IsQuiet _ _ (get_tx_batch_nonce-IsQuiet num encode_call web contract_address _)
        λ last. pure-IsQuiet _

  send_batch_payload-sends :
      (eth_address : EthAddress) (payload : Bytes) (h : History)
      → SendsOnly
          (λ sends. sends ≡ batch_sent payload ∷ sent h)
          (send_batch_payload num encode_call web contract_address our_eth_key eth_address batch
            nonce payload)
          h
  unfolding send_batch_payload sent
  send_batch_payload-sends eth_address payload h =
      let Q : List Sent → Type 0 = λ sends. sends ≡ batch_sent payload ∷ sent h in
      >>=-SendsOnly Q _ _ h (perform-IsQuiet _ _ _ (λ h. refl)) λ price h₁ e₁ s₁.
        >>=-SendsOnly Q _ _ h₁ (perform-IsQuiet _ _ _ (λ h. refl)) λ network h₂ e₂ s₂.
          pure-SendsOnly Q _ _ h₂ λ signed e₃.
            >>=-SendsOnly Q _ _ h₂ (attempt-IsQuiet _ (perform-IsQuiet _ _ _ (λ h. refl)))
              λ gas h₃ e₄ s₃. inr (
                >>=-sent _ _ h₃ await_batch-IsQuiet
                ∙ attempt-sent _ h₃
                ∙ perform-sent contract_address payload _ _ _ h₃
                ∙ ap (λ rest. batch_sent payload ∷ rest) (s₃ ∙ s₂ ∙ s₁))

  module _ (current_valset : Valset) (confirms : List BatchConfirmResponse) (h : History) where
    -- One transaction was sent after the history: the call of `submitBatch` for signatures that
    -- suffice, when the last batch of the contract was an earlier one.
    unfoldable pub IsBatchSubmission : List Sent → Type 0
    IsBatchSubmission sends =
        (payload : Bytes) × (sigs : List PeggySignature) × (before_nonce : ℕ) × (order_batch_sigs
            current_valset confirms
          ≡ ok sigs)
        × (batch_payload num encode_call current_valset batch confirms ≡ ok payload)
        × ((get_tx_batch_nonce num encode_call web contract_address batch.token_contract h).0
            ≡ ok before_nonce)
        × (before_nonce < batch.nonce)
        × (sends ≡ batch_sent payload ∷ sent h)

    batch_payload-sigs :
        (payload : Bytes)
        → batch_payload num encode_call current_valset batch confirms ≡ ok payload
        → (sigs : List PeggySignature) × (order_batch_sigs current_valset confirms ≡ ok sigs)
    unfolding batch_payload
    batch_payload-sigs payload e =
        let (sigs, p, q) = >>=-parts (order_batch_sigs current_valset confirms) _ e in (sigs, p)

    -- `send_eth_transaction_batch` sends at most one transaction. It sends one only to the contract
    -- and with the given nonce, only if the confirmations suffice to order the signatures of the
    -- current validator set, and the contract answers with the nonce of an earlier batch.
    pub send_eth_transaction_batch-sends :
        SendsOnly IsBatchSubmission
          (send_eth_transaction_batch num encode_call web current_valset batch confirms
            contract_address our_eth_key nonce)
          h
    unfolding send_eth_transaction_batch IsBatchSubmission
    send_eth_transaction_batch-sends = pure-SendsOnly IsBatchSubmission _ _ h λ eth_address key.
        pure-SendsOnly IsBatchSubmission _ _ h λ payload encoded.
          >>=-SendsOnly IsBatchSubmission _ _ h
            (get_tx_batch_nonce-IsQuiet num encode_call web contract_address _)
            λ before next asked quiet. elim (Bool-cases (leb batch.nonce before)) [
              | inl late ↦ rw late (inl (pure-IsQuiet _ next))
              | inr early ↦ rw early (elim (send_batch_payload-sends eth_address payload next) [
                | inl none_sent ↦ inl none_sent
                | inr one_sent ↦ inr (
                    let (sigs, ordered) = batch_payload-sigs payload encoded in
                    (
                      payload,
                      sigs,
                      before,
                      ordered,
                      encoded,
                      ap (λ r. r.0) asked,
                      leb→lt _ _ early,
                      one_sent ∙ ap (λ rest. batch_sent payload ∷ rest) quiet,
                    ))
              ])
            ]
