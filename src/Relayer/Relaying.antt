-- ===== src/Relayer/Relaying.antt =====
-- When a round of relaying validator sets sends a transaction.
use minter_hub.Bytes.{Bytes}
use minter_hub.Error.{PeggyError}
use minter_hub.Ethereum.Payloads.{valset_payload}
use minter_hub.Io.{History, Io, SendTxOption, attempt}
use minter_hub.Io.Running.{attempt-ok}
use minter_hub.Io.Sending.{
  >>=-IsQuiet, >>=-SendsOnly, >>=-sent, IsQuiet, SendsOnly, Sent, attempt-IsQuiet, attempt-sent,
  perform-IsQuiet, pure-IsQuiet, pure-SendsOnly, sent,
}
use minter_hub.Outcome.{ok}
use minter_hub.Prelude.{
  Bool, Bool-cases, List, Option, [], ap, false, inl, inr, ltb, none, refl, some, suc, true, zero,
  ℕ, ◌<◌, ◌==◌, ◌∙◌, ◌∷◌, ◌≡◌, ◌⊎◌,
}
use minter_hub.Queries.Laws.{
  get_all_valset_confirms-IsQuiet, get_latest_valsets-IsQuiet, get_valset-IsQuiet,
}
use minter_hub.Relayer.{
  Relayer, confirmed_or, end_search, find_latest_valset, first_confirmed, found_or,
  get_block_number, get_window, is_small, relay_confirmed, relay_latest, relay_valsets,
  search_blocks, search_round, update_if_newer, update_newer, update_unless_small, update_valset,
}
use minter_hub.Submit.{send_eth_valset_update}
use minter_hub.Submit.Valsets.{
  IsValsetUpdate, get_valset_nonce-IsQuiet, send_eth_valset_update-sends,
}
use minter_hub.Valset.{PeggySignature, Valset, ValsetConfirmResponse}
use minter_hub.Valset.Signing.{order_valset_sigs}

module _ (r : Relayer) where
  get_window-IsQuiet : (current_block : ℕ) → IsQuiet (get_window r current_block)
  unfolding get_window sent
  get_window-IsQuiet current_block = perform-IsQuiet _ _ _ (λ h. refl)

  found_or-IsQuiet :
      (cosmos : Option Valset) (next_round : Io Valset) (found : Option Valset)
      → IsQuiet next_round
      → IsQuiet (found_or r cosmos next_round found)
  unfolding found_or
  found_or-IsQuiet cosmos next_round none quiet = quiet
  found_or-IsQuiet cosmos next_round (some set) quiet = pure-IsQuiet _

  search_round-IsQuiet :
      (cosmos : Option Valset) (next_round : Io Valset) (current_block : ℕ)
      → IsQuiet next_round
      → IsQuiet (search_round r cosmos next_round current_block)
  unfolding search_round
  search_round-IsQuiet cosmos next_round current_block quiet =
      >>=-IsQuiet _ _ (get_window-IsQuiet current_block) λ events.
        >>=-IsQuiet _ _ (pure-IsQuiet _) λ found. found_or-IsQuiet cosmos next_round found quiet

  search_blocks-IsQuiet :
      (rounds : ℕ) (cosmos : Option Valset) (current_block : ℕ)
      → IsQuiet (search_blocks r rounds cosmos current_block)
  unfolding search_blocks
  search_blocks-IsQuiet zero cosmos current_block = pure-IsQuiet _
  search_blocks-IsQuiet (suc rounds) cosmos current_block =
      let next_round = search_blocks-IsQuiet rounds cosmos (end_search current_block) in
      elim (Bool-cases (current_block == 0)) [
        | inl stop ↦ rw stop (pure-IsQuiet _)
        | inr go ↦ rw go (search_round-IsQuiet cosmos _ current_block next_round)
      ]

  pub find_latest_valset-IsQuiet : IsQuiet (find_latest_valset r)
  unfolding find_latest_valset get_block_number sent
  find_latest_valset-IsQuiet = >>=-IsQuiet _ _ (perform-IsQuiet _ _ _ (λ h. refl)) λ latest_block.
      >>=-IsQuiet _ _ (get_valset_nonce-IsQuiet _ _ _ _) λ nonce.
        >>=-IsQuiet _ _ (get_valset-IsQuiet _ _ _ _ nonce)
          λ cosmos. search_blocks-IsQuiet latest_block cosmos latest_block

  confirmed_or-IsQuiet :
      (set : Valset) (others : Io (Option (List ValsetConfirmResponse × Valset)))
      (answer : PeggyError ⊎ List ValsetConfirmResponse)
      → IsQuiet others
      → IsQuiet (confirmed_or r set others answer)
  unfolding confirmed_or
  confirmed_or-IsQuiet set others (inl e) quiet = quiet
  confirmed_or-IsQuiet set others (inr confirms) quiet = pure-IsQuiet _

  pub first_confirmed-IsQuiet : (sets : List Valset) → IsQuiet (first_confirmed r sets)
  unfolding first_confirmed
  first_confirmed-IsQuiet [] = pure-IsQuiet _
  first_confirmed-IsQuiet (set ∷ rest) =
      >>=-IsQuiet _ _ (attempt-IsQuiet _ (get_all_valset_confirms-IsQuiet _ _ _ _ set.nonce))
        λ answer. confirmed_or-IsQuiet set _ answer (first_confirmed-IsQuiet rest)

  module _ (h : History) where
    -- One transaction was sent after the history: an update from the set that the search found to one
    -- with a greater nonce, which is not small, for signatures of the found set that suffice.
    unfoldable pub IsRelayedUpdate : List Sent → Type 0
    IsRelayedUpdate sends =
        (start : History) × (current_valset : Valset) × (latest_valset : Valset) × (confirms : List
          ValsetConfirmResponse)
        × (sigs : List PeggySignature) × (payload : Bytes) × ((find_latest_valset r start).0
            ≡ ok current_valset)
        × (current_valset.nonce < latest_valset.nonce)
        × (is_small r current_valset latest_valset ≡ ok false)
        × (order_valset_sigs current_valset confirms ≡ ok sigs)
        × (valset_payload r.num r.encode_call latest_valset current_valset confirms ≡ ok payload)
        × (sends
            ≡ (r.peggy_contract_address, payload, SendTxOption.gas_limit 1000000 ∷ []) ∷ sent h)

    update_valset-sends :
        (start : History) (latest_valset current_valset : Valset)
        (confirms : List ValsetConfirmResponse) (next : History)
        → sent next ≡ sent h
        → (find_latest_valset r start).0 ≡ ok current_valset
        → is_small r current_valset latest_valset ≡ ok false
        → SendsOnly IsRelayedUpdate (update_valset r latest_valset current_valset confirms) next
    unfolding update_valset IsRelayedUpdate IsValsetUpdate
    update_valset-sends start latest_valset current_valset confirms next quiet found large =
        let e : sent ((update_valset r latest_valset current_valset confirms next).1)
            ≡ sent (
                (send_eth_valset_update r.num r.encode_call r.world latest_valset current_valset
                  confirms r.peggy_contract_address r.ethereum_key next).1) =
          >>=-sent _ _ next (λ res. pure-IsQuiet _) ∙ attempt-sent _ next in
        elim (send_eth_valset_update-sends r.num r.encode_call r.world latest_valset current_valset
          confirms r.peggy_contract_address r.ethereum_key next) [
            | inl none_sent ↦ inl (e ∙ none_sent)
            | inr one_sent ↦ inr (
                let (payload, sigs, ordered, encoded, newer, asked, sends) = one_sent in
                (
                  start,
                  current_valset,
                  latest_valset,
                  confirms,
                  sigs,
                  payload,
                  found,
                  newer,
                  large,
                  ordered,
                  encoded,
                  e
                      ∙ sends
                      ∙ ap
                          (λ rest.
                            (r.peggy_contract_address, payload, SendTxOption.gas_limit 1000000 ∷ [])
                            ∷ rest)
                          quiet,
                ))
          ]

    update_unless_small-sends :
        (start : History) (latest_valset current_valset : Valset)
        (confirms : List ValsetConfirmResponse) (small : Bool) (next : History)
        → sent next ≡ sent h
        → (find_latest_valset r start).0 ≡ ok current_valset
        → is_small r current_valset latest_valset ≡ ok small
        → SendsOnly IsRelayedUpdate
            (update_unless_small r confirms latest_valset current_valset small)
            next
    unfolding update_unless_small
    update_unless_small-sends start latest current confirms true next quiet found is =
        inl (pure-IsQuiet _ next)
    update_unless_small-sends start latest current confirms false next quiet found is =
        update_valset-sends start latest current confirms next quiet found is

    update_if_newer-sends :
        (start : History) (confirms : List ValsetConfirmResponse) (latest_valset : Valset)
        (answer : PeggyError ⊎ Valset) (next : History)
        → sent next ≡ sent h
        → attempt (find_latest_valset r) start ≡ (ok answer, next)
        → SendsOnly IsRelayedUpdate (update_if_newer r confirms latest_valset answer) next
    unfolding update_if_newer update_newer
    update_if_newer-sends start confirms latest (inl e) next quiet found = inl (pure-IsQuiet _ next)
    update_if_newer-sends start confirms latest (inr current) next quiet found =
        elim (Bool-cases (ltb current.nonce latest.nonce)) [
          | inl newer ↦ rw newer (
              pure-SendsOnly IsRelayedUpdate _ _ next λ small is.
                update_unless_small-sends start latest current confirms small next quiet
                  (attempt-ok _ start next current found) is)
          | inr older ↦ rw older (inl (pure-IsQuiet _ next))
        ]

    relay_confirmed-sends :
        (found : Option (List ValsetConfirmResponse × Valset)) (next : History)
        → sent next ≡ sent h
        → SendsOnly IsRelayedUpdate (relay_confirmed r found) next
    unfolding relay_confirmed
    relay_confirmed-sends none next quiet = inl (pure-IsQuiet _ next)
    relay_confirmed-sends (some (confirms, latest)) next quiet =
        >>=-SendsOnly IsRelayedUpdate _ _ next (attempt-IsQuiet _ find_latest_valset-IsQuiet)
          λ answer after e s. update_if_newer-sends next confirms latest answer after (s ∙ quiet) e

    relay_latest-sends :
        (answer : PeggyError ⊎ List Valset) (next : History)
        → sent next ≡ sent h
        → SendsOnly IsRelayedUpdate (relay_latest r answer) next
    unfolding relay_latest
    relay_latest-sends (inl e) next quiet = inl (pure-IsQuiet _ next)
    relay_latest-sends (inr sets) next quiet =
        >>=-SendsOnly IsRelayedUpdate _ _ next (first_confirmed-IsQuiet sets)
          λ found after e s. relay_confirmed-sends found after (s ∙ quiet)

    -- A round of `relay_valsets` sends at most one transaction, and only to the contract. It sends one
    -- only if `find_latest_valset` returned a set with a smaller nonce, the update is not skipped as
    -- small, and the confirmations suffice to order the signatures of the set that was found.
    pub relay_valsets-sends : SendsOnly IsRelayedUpdate (relay_valsets r) h
    unfolding relay_valsets
    relay_valsets-sends = pure-SendsOnly IsRelayedUpdate _ _ h λ address key.
        >>=-SendsOnly IsRelayedUpdate _ _ h (attempt-IsQuiet _ (get_latest_valsets-IsQuiet _ _ _ _))
          λ answer next e s. relay_latest-sends answer next s
