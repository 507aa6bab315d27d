-- ===== src/Relayer/Silent.antt =====
-- The relayer broadcasts nothing to the Cosmos chain.
use minter_hub.Batches.{TransactionBatch}
use minter_hub.Batches.Derived.{batch_lt}
use minter_hub.Error.{PeggyError}
use minter_hub.Io.{Io}
use minter_hub.Io.Broadcasting.{broadcasts}
use minter_hub.Io.Silent.{
  >>=-IsSilent, IsSilent, attempt-IsSilent, if-IsSilent, perform-IsSilent, pure-IsSilent,
  query-IsSilent,
}
use minter_hub.Prelude.{
  List, Option, [], inl, inr, ltb, none, refl, some, suc, zero, ℕ, ◌==◌, ◌∷◌, ◌⊎◌,
}
use minter_hub.Queries.{
  get_all_valset_confirms, get_latest_transaction_batches, get_latest_valsets,
  get_transaction_batch_signatures, get_valset,
}
use minter_hub.Relayer.{
  Relayer, confirmed_or, end_search, find_latest_valset, first_confirmed, found_or,
  get_block_number, get_window, relay_confirmed, relay_latest, relay_valsets, search_blocks,
  search_round, update_if_newer, update_newer, update_unless_small, update_valset,
}
use minter_hub.Relayer.Batches.{
  get_count, relay_answer, relay_batch, relay_batches, relay_each, relay_sorted, submit_current,
  submit_if_newer, submit_signed, submit_with,
}
use minter_hub.Relayer.Rounds.{relayer_round, relayer_rounds}
use minter_hub.Sorting.{sort}
use minter_hub.Submit.Silent.{
  get_tx_batch_nonce-IsSilent, get_valset_nonce-IsSilent, send_eth_transaction_batch-IsSilent,
  send_eth_valset_update-IsSilent,
}
use minter_hub.Valset.{BatchConfirmResponse, EthAddress, Valset, ValsetConfirmResponse}

module _ (r : Relayer) where
  get_window-IsSilent : (current_block : ℕ) → IsSilent (get_window r current_block)
  unfolding get_window broadcasts
  get_window-IsSilent current_block = perform-IsSilent _ _ _ (λ h. refl)

  found_or-IsSilent :
      (cosmos : Option Valset) (next_round : Io Valset) (found : Option Valset)
      → IsSilent next_round
      → IsSilent (found_or r cosmos next_round found)
  unfolding found_or
  found_or-IsSilent cosmos next_round none silent = silent
  found_or-IsSilent cosmos next_round (some set) silent = pure-IsSilent _

  search_blocks-IsSilent :
      (rounds : ℕ) (cosmos : Option Valset) (current_block : ℕ)
      → IsSilent (search_blocks r rounds cosmos current_block)
  unfolding search_blocks search_round
  search_blocks-IsSilent zero cosmos current_block = pure-IsSilent _
  search_blocks-IsSilent (suc rounds) cosmos current_block =
      if-IsSilent (current_block == 0) _ _ (pure-IsSilent _) (
        >>=-IsSilent _ _ (get_window-IsSilent current_block) λ events.
          >>=-IsSilent _ _ (pure-IsSilent _) λ found.
            found_or-IsSilent cosmos _ found
              (search_blocks-IsSilent rounds cosmos (end_search current_block)))

  find_latest_valset-IsSilent : IsSilent (find_latest_valset r)
  unfolding find_latest_valset get_block_number get_valset broadcasts
  find_latest_valset-IsSilent =
      >>=-IsSilent _ _ (perform-IsSilent _ _ _ (λ h. refl)) λ latest_block.
        >>=-IsSilent _ _ (get_valset_nonce-IsSilent _ _ _ _) λ nonce.
          >>=-IsSilent _ _ (query-IsSilent _ _ _ _ (λ h. refl))
            λ cosmos. search_blocks-IsSilent latest_block cosmos latest_block

  confirmed_or-IsSilent :
      (set : Valset) (others : Io (Option (List ValsetConfirmResponse × Valset)))
      (answer : PeggyError ⊎ List ValsetConfirmResponse)
      → IsSilent others
      → IsSilent (confirmed_or r set others answer)
  unfolding confirmed_or
  confirmed_or-IsSilent set others (inl e) silent = silent
  confirmed_or-IsSilent set others (inr confirms) silent = pure-IsSilent _

  first_confirmed-IsSilent : (sets : List Valset) → IsSilent (first_confirmed r sets)
  unfolding first_confirmed get_all_valset_confirms broadcasts
  first_confirmed-IsSilent [] = pure-IsSilent _
  first_confirmed-IsSilent (set ∷ rest) =
      >>=-IsSilent _ _ (attempt-IsSilent _ (query-IsSilent _ _ _ _ (λ h. refl)))
        λ answer. confirmed_or-IsSilent set _ answer (first_confirmed-IsSilent rest)

  update_if_newer-IsSilent :
      (confirms : List ValsetConfirmResponse) (latest : Valset) (answer : PeggyError ⊎ Valset)
      → IsSilent (update_if_newer r confirms latest answer)
  unfolding update_if_newer update_newer update_unless_small update_valset
  update_if_newer-IsSilent confirms latest (inl e) = pure-IsSilent _
  update_if_newer-IsSilent confirms latest (inr current) =
      if-IsSilent (ltb current.nonce latest.nonce) _ _
        (>>=-IsSilent _ _ (pure-IsSilent _) λ small. if-IsSilent small _ _ (pure-IsSilent _) (
          >>=-IsSilent _ _
            (attempt-IsSilent _ (
              send_eth_valset_update-IsSilent r.num r.encode_call r.world latest current confirms
                r.peggy_contract_address r.ethereum_key))
            λ res. pure-IsSilent _))
        (pure-IsSilent _)

  relay_confirmed-IsSilent :
      (found : Option (List ValsetConfirmResponse × Valset)) → IsSilent (relay_confirmed r found)
  unfolding relay_confirmed
  relay_confirmed-IsSilent none = pure-IsSilent _
  relay_confirmed-IsSilent (some (confirms, latest)) =
      >>=-IsSilent _ _ (attempt-IsSilent _ find_latest_valset-IsSilent)
        (update_if_newer-IsSilent confirms latest)

  relay_latest-IsSilent : (answer : PeggyError ⊎ List Valset) → IsSilent (relay_latest r answer)
  unfolding relay_latest
  relay_latest-IsSilent (inl e) = pure-IsSilent _
  relay_latest-IsSilent (inr sets) =
      >>=-IsSilent _ _ (first_confirmed-IsSilent sets) relay_confirmed-IsSilent

  relay_valsets-IsSilent : IsSilent (relay_valsets r)
  unfolding relay_valsets get_latest_valsets broadcasts
  relay_valsets-IsSilent = >>=-IsSilent _ _ (pure-IsSilent _) λ us.
      >>=-IsSilent _ _ (attempt-IsSilent _ (query-IsSilent _ _ _ _ (λ h. refl)))
        relay_latest-IsSilent

  module _ (nonce : ℕ) where
    submit_with-IsSilent :
        (i : ℕ) (batch : TransactionBatch) (sigs : List BatchConfirmResponse)
        (answer : PeggyError ⊎ Valset)
        → IsSilent (submit_with r nonce i batch sigs answer)
    unfolding submit_with
    submit_with-IsSilent i batch sigs (inl e) = pure-IsSilent _
    submit_with-IsSilent i batch sigs (inr current) =
        >>=-IsSilent _ _ (pure-IsSilent _) λ current_nonce.
          >>=-IsSilent _ _
            (attempt-IsSilent _ (
              send_eth_transaction_batch-IsSilent r.num r.encode_call r.world current batch sigs
                r.peggy_contract_address r.ethereum_key current_nonce))
            λ res. pure-IsSilent _

    submit_if_newer-IsSilent :
        (i : ℕ) (batch : TransactionBatch) (sigs : List BatchConfirmResponse)
        (answer : PeggyError ⊎ ℕ)
        → IsSilent (submit_if_newer r nonce i batch sigs answer)
    unfolding submit_if_newer submit_current
    submit_if_newer-IsSilent i batch sigs (inl e) = pure-IsSilent _
    submit_if_newer-IsSilent i batch sigs (inr latest) =
        if-IsSilent (ltb latest batch.nonce) _ _
          (>>=-IsSilent _ _ (attempt-IsSilent _ find_latest_valset-IsSilent)
            (submit_with-IsSilent i batch sigs))
          (pure-IsSilent _)

    submit_signed-IsSilent :
        (i : ℕ) (batch : TransactionBatch) (answer : PeggyError ⊎ List BatchConfirmResponse)
        → IsSilent (submit_signed r nonce i batch answer)
    unfolding submit_signed
    submit_signed-IsSilent i batch (inl e) = pure-IsSilent _
    submit_signed-IsSilent i batch (inr sigs) =
        >>=-IsSilent _ _ (attempt-IsSilent _ (get_tx_batch_nonce-IsSilent _ _ _ _ _))
          (submit_if_newer-IsSilent i batch sigs)

    relay_each-IsSilent :
        (i : ℕ) (batches : List TransactionBatch) → IsSilent (relay_each r nonce i batches)
    unfolding relay_each relay_batch get_transaction_batch_signatures broadcasts
    relay_each-IsSilent i [] = pure-IsSilent _
    relay_each-IsSilent i (batch ∷ rest) =
        >>=-IsSilent _ _
          (>>=-IsSilent _ _ (attempt-IsSilent _ (query-IsSilent _ _ _ _ (λ h. refl)))
            (submit_signed-IsSilent i batch))
          λ next. relay_each-IsSilent next rest

  relay_answer-IsSilent :
      (us : EthAddress) (answer : PeggyError ⊎ List TransactionBatch)
      → IsSilent (relay_answer r us answer)
  unfolding relay_answer relay_sorted get_count broadcasts
  relay_answer-IsSilent us (inl e) = pure-IsSilent _
  relay_answer-IsSilent us (inr batches) =
      >>=-IsSilent _ _ (attempt-IsSilent _ (perform-IsSilent _ _ _ (λ h. refl)))
        λ answer. sorted-IsSilent answer
    where
      sorted-IsSilent :
          (answer : PeggyError ⊎ ℕ)
          → IsSilent (relay_sorted r (sort (batch_lt r.eth) batches) answer)
      sorted-IsSilent (inl e) = pure-IsSilent _
      sorted-IsSilent (inr nonce) = relay_each-IsSilent nonce 0 (sort (batch_lt r.eth) batches)

  relay_batches-IsSilent : IsSilent (relay_batches r)
  unfolding relay_batches get_latest_transaction_batches broadcasts
  relay_batches-IsSilent = >>=-IsSilent _ _ (pure-IsSilent _) λ us.
      >>=-IsSilent _ _ (attempt-IsSilent _ (query-IsSilent _ _ _ _ (λ h. refl)))
        (relay_answer-IsSilent us)

  pub relayer_rounds-IsSilent : (rounds : ℕ) → IsSilent (relayer_rounds r rounds)
  unfolding relayer_rounds relayer_round
  relayer_rounds-IsSilent zero = pure-IsSilent _
  relayer_rounds-IsSilent (suc rounds) =
      >>=-IsSilent _ _ (>>=-IsSilent _ _ relay_valsets-IsSilent λ done. relay_batches-IsSilent)
        λ done. relayer_rounds-IsSilent rounds
