-- ===== src/Submit/Valsets.antt =====
-- When `send_eth_valset_update` sends a transaction.
use Prim.Native.String.{String}
use minter_hub.Bytes.{Bytes}
use minter_hub.Crates.{Num256}
use minter_hub.Ethereum.{Token}
use minter_hub.Ethereum.Payloads.{valset_payload}
use minter_hub.Io.{History, SendTxOption, World}
use minter_hub.Io.Running.{>>=-runs, pure-runs}
use minter_hub.Io.Sending.{
  >>=-IsQuiet, >>=-SendsOnly, >>=-sent, IsQuiet, SendsOnly, Sent, perform-IsQuiet, perform-sent,
  pure-IsQuiet, pure-SendsOnly, sent,
}
use minter_hub.Outcome.{>>=-parts, Outcome, assert-eq-ok, ok}
use minter_hub.Prelude.{
  ==_iff, Bool-cases, List, [], ap, inl, inr, ltb→lt, lt→ltb, refl, ◌<◌, ◌==◌, ◌∙◌, ◌∷◌, ◌≡◌,
}
use minter_hub.Submit.{
  EthPrivateKey, get_tx_batch_nonce, get_valset_nonce, query_nonce, send_eth_valset_update,
  send_valset_payload,
}
use minter_hub.Valset.{EthAddress, PeggySignature, Valset, ValsetConfirmResponse}
use minter_hub.Valset.Signing.{order_valset_sigs}

module _ (num : Num256) (encode_call : String → List Token → Outcome String Bytes)
    (web : World) where
  query_nonce-IsQuiet :
      (contract_address : EthAddress) (signature : String) (tokens : List Token)
      → IsQuiet (query_nonce num encode_call web contract_address signature tokens)
  unfolding query_nonce sent
  query_nonce-IsQuiet contract_address signature tokens =
      >>=-IsQuiet _ _ (pure-IsQuiet _)
        λ payload. >>=-IsQuiet _ _ (perform-IsQuiet _ _ _ (λ h. refl)) λ bytes. pure-IsQuiet _

  pub get_valset_nonce-IsQuiet :
      (contract_address : EthAddress)
      → IsQuiet (get_valset_nonce num encode_call web contract_address)
  unfolding get_valset_nonce
  get_valset_nonce-IsQuiet contract_address = query_nonce-IsQuiet contract_address _ _

  pub get_tx_batch_nonce-IsQuiet :
      (contract_address erc20 : EthAddress)
      → IsQuiet (get_tx_batch_nonce num encode_call web contract_address erc20)
  unfolding get_tx_batch_nonce
  get_tx_batch_nonce-IsQuiet contract_address erc20 = query_nonce-IsQuiet contract_address _ _

  send_valset_payload-sent :
      (contract_address : EthAddress) (payload : Bytes) (h : History)
      → sent ((send_valset_payload num encode_call web contract_address payload h).1)
        ≡ (contract_address, payload, SendTxOption.gas_limit 1000000 ∷ []) ∷ sent h
  unfolding send_valset_payload sent
  send_valset_payload-sent contract_address payload h =
      >>=-sent _ _ h (λ tx.
        >>=-IsQuiet _ _ (perform-IsQuiet _ _ _ (λ h. refl)) λ done.
          >>=-IsQuiet _ _ (get_valset_nonce-IsQuiet contract_address) λ last. pure-IsQuiet _)
      ∙ perform-sent contract_address payload _ _ _ h

  module _ (new_valset old_valset : Valset) (confirms : List ValsetConfirmResponse)
      (contract_address : EthAddress) (our_eth_key : EthPrivateKey) (h : History) where
    -- One transaction was sent after the history: the call of `updateValset` for signatures that
    -- suffice, when the contract still had the nonce of the old validator set.
    unfoldable pub IsValsetUpdate : List Sent → Type 0
    IsValsetUpdate sends =
        (payload : Bytes) × (sigs : List PeggySignature) × (order_valset_sigs old_valset confirms
          ≡ ok sigs)
        × (valset_payload num encode_call new_valset old_valset confirms ≡ ok payload)
        × (old_valset.nonce < new_valset.nonce)
        × ((get_valset_nonce num encode_call web contract_address h).0 ≡ ok old_valset.nonce)
        × (sends ≡ (contract_address, payload, SendTxOption.gas_limit 1000000 ∷ []) ∷ sent h)

    valset_payload-sigs :
        (payload : Bytes)
        → valset_payload num encode_call new_valset old_valset confirms ≡ ok payload
        → (sigs : List PeggySignature) × (order_valset_sigs old_valset confirms ≡ ok sigs)
    unfolding valset_payload
    valset_payload-sigs payload e =
        let (sigs, p, q) = >>=-parts (order_valset_sigs old_valset confirms) _ e in (sigs, p)

    -- `send_eth_valset_update` sends at most one transaction. It sends one only to the contract, only
    -- if the new nonce is above the old one, the confirmations suffice to order the signatures of the
    -- old set, and the contract answers with the nonce of the old set.
    pub send_eth_valset_update-sends :
        SendsOnly IsValsetUpdate
          (send_eth_valset_update num encode_call web new_valset old_valset confirms
            contract_address our_eth_key)
          h
    unfolding send_eth_valset_update IsValsetUpdate
    send_eth_valset_update-sends = pure-SendsOnly IsValsetUpdate _ _ h λ checked newer.
        pure-SendsOnly IsValsetUpdate _ _ h λ eth_address key.
          pure-SendsOnly IsValsetUpdate _ _ h λ payload encoded.
            >>=-SendsOnly IsValsetUpdate _ _ h (get_valset_nonce-IsQuiet contract_address)
              λ nonce next asked quiet. elim (Bool-cases (nonce == old_valset.nonce)) [
                | inl current ↦ rw current (
                    inr (
                      let (sigs, ordered) = valset_payload-sigs payload encoded in
                      (
                        payload,
                        sigs,
                        ordered,
                        encoded,
                        ltb→lt _ _ (assert-eq-ok _ newer),
                        ap (λ r. r.0) asked ∙ ap ok ((==_iff nonce old_valset.nonce).0 current),
                        send_valset_payload-sent contract_address payload next
                            ∙ ap
                                (λ rest.
                                  (contract_address, payload, SendTxOption.gas_limit 1000000 ∷ [])
                                  ∷ rest)
                                quiet,
                      )))
                | inr changed ↦ rw changed (inl (pure-IsQuiet _ next))
              ]

    -- If the new nonce is above the old one, our key has an address, the call of `updateValset` can
    -- be encoded for the confirmations, and the contract answers with the nonce of the old set, then
    -- `send_eth_valset_update` sends this call and nothing else.
    pub send_eth_valset_update-sends_when :
        (eth_address : EthAddress) (payload : Bytes)
        → old_valset.nonce < new_valset.nonce
        → our_eth_key.to_public_key ≡ ok eth_address
        → valset_payload num encode_call new_valset old_valset confirms ≡ ok payload
        → (get_valset_nonce num encode_call web contract_address h).0 ≡ ok old_valset.nonce
        → sent (
            (send_eth_valset_update num encode_call web new_valset old_valset confirms
              contract_address our_eth_key h).1)
          ≡ (contract_address, payload, SendTxOption.gas_limit 1000000 ∷ []) ∷ sent h
    unfolding send_eth_valset_update
    send_eth_valset_update-sends_when eth_address payload newer key encoded asked =
        ap (λ r. sent r.1)
          (pure-runs _ _ h tt (rw (lt→ltb _ _ newer) refl)
            ∙ pure-runs _ _ h eth_address (rw key refl)
            ∙ pure-runs _ _ h payload encoded
            ∙ >>=-runs _ _ h old_valset.nonce asked)
        ∙ rw ((==_iff old_valset.nonce old_valset.nonce).1 refl) (
            send_valset_payload-sent contract_address payload _
            ∙ ap (λ rest. (contract_address, payload, SendTxOption.gas_limit 1000000 ∷ []) ∷ rest)
                (get_valset_nonce-IsQuiet contract_address h))
