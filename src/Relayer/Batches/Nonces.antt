-- ===== src/Relayer/Batches/Nonces.antt =====
-- The nonces of the transactions that one round of relaying batches sends.
use minter_hub.Batches.{TransactionBatch}
use minter_hub.Bytes.{Bytes}
use minter_hub.Error.{PeggyError}
use minter_hub.Io.{History, Io, SendTxOption, attempt, pure, ◌>>=◌}
use minter_hub.Io.Ending.{
  >>=-Ends, Ends, Ends-any, Ends-sent, pure-Ends, pure_result-Ends, quiet-Ends,
}
use minter_hub.Io.Running.{attempt-ok}
use minter_hub.Io.Sending.{
  >>=-SendsOnly, IsQuiet, SendsOnly, Sent, attempt-IsQuiet, attempt-sent, perform-IsQuiet,
  pure-IsQuiet, pure-SendsOnly, sent,
}
use minter_hub.Outcome.{Outcome, ok, panic, unwrap, unwrap_result-eq-ok}
use minter_hub.Prelude.{
  Bool-cases, List, [], ap, arith, inl, inr, ltb, none, refl, some, subst, sym, ℕ, ◌+◌, ◌^◌, ◌∙◌,
  ◌∷◌, ◌≡◌, ◌⊎◌,
}
use minter_hub.Queries.{get_transaction_batch_signatures}
use minter_hub.Queries.Laws.{
  get_latest_transaction_batches-IsQuiet, get_transaction_batch_signatures-IsQuiet,
}
use minter_hub.Relayer.{Relayer, find_latest_valset}
use minter_hub.Relayer.Batches.{
  get_count, relay_answer, relay_batch, relay_batches, relay_each, relay_sorted, submit_current,
  submit_if_newer, submit_signed, submit_with,
}
use minter_hub.Relayer.Relaying.{find_latest_valset-IsQuiet}
use minter_hub.Submit.{get_tx_batch_nonce, send_eth_transaction_batch}
use minter_hub.Submit.Batches.{IsBatchSubmission, send_eth_transaction_batch-sends}
use minter_hub.Submit.Valsets.{get_tx_batch_nonce-IsQuiet}
use minter_hub.Valset.{BatchConfirmResponse, EthAddress, Valset}
use native.Mathlib.Decide.{dec_lt}

module _ (r : Relayer) (nonce : ℕ) (before : List Sent) where
  -- After `before`, only submissions to the contract were sent, whose nonces are `nonce + k` for
  -- different `k` below the last argument, in ascending order.
  pub data Numbered : ℕ → List Sent → Type 0 where
    none_yet : Numbered 0 before
    skipped : {i : ℕ} {sends : List Sent} → Numbered i sends → Numbered (i + 1) sends
    numbered :
        {i : ℕ} {sends : List Sent} (payload : Bytes)
        → Numbered i sends
        → Numbered (i + 1) (
            (
              r.peggy_contract_address,
              payload,
              SendTxOption.gas_limit 1000000 ∷ SendTxOption.tx_nonce (nonce + i) ∷ [],
            )
            ∷ sends)

  unfoldable pub IsNumbered : List Sent → Type 0
  IsNumbered sends = (i : ℕ) × Numbered i sends

  to_numbered : (i : ℕ) (sends : List Sent) → Numbered i sends → IsNumbered sends
  unfolding IsNumbered
  to_numbered i sends p = (i, p)

  unwrap-some : (a b : ℕ) → unwrap {E = PeggyError} (some a) ≡ ok b → b ≡ a
  unwrap-some a b e = cc

  unwrap-none : {C : Type 0} (b : ℕ) → unwrap {E = PeggyError} none ≡ ok b → C
  unwrap-none b e = absurd (not_ok e)
    where
      not_ok : ◌≡◌ {A = Outcome PeggyError ℕ} panic (ok b) → ⊥
      not_ok e = cc

  current_nonce_eq :
      (i current_nonce : ℕ)
      → unwrap {E = PeggyError} (r.num.add nonce i) ≡ ok current_nonce
      → current_nonce ≡ nonce + i
  current_nonce_eq i current_nonce e = elim (dec_lt (nonce + i) (2 ^ 256)) [
    | yes fits ↦
        let q = r.num.add_fits nonce i fits in
        unwrap-some (nonce + i) current_nonce (sym (ap unwrap q) ∙ e)
    | no large ↦
        let q = r.num.add_overflows nonce i (omega arith) in
        unwrap-none current_nonce (sym (ap unwrap q) ∙ e)
  ]

  Numbered-submission :
      (i : ℕ) (batch : TransactionBatch) (sigs : List BatchConfirmResponse) (current : Valset)
      (current_nonce : ℕ) (h : History)
      → current_nonce ≡ nonce + i
      → Numbered i (sent h)
      → Numbered (i + 1) (
          sent (
            (send_eth_transaction_batch r.num r.encode_call r.world current batch sigs
              r.peggy_contract_address r.ethereum_key current_nonce h).1))
  unfolding IsBatchSubmission
  Numbered-submission i batch sigs current current_nonce h e p =
      elim (send_eth_transaction_batch-sends r.num r.encode_call r.world batch
        r.peggy_contract_address r.ethereum_key current_nonce current sigs h) [
          | inl quiet ↦ rw quiet (skipped p)
          | inr (payload, sigs', before', o, c, a, l, sends) ↦ rw (sends, e) (numbered payload p)
        ]

  submit_with-Ends :
      (i : ℕ) (batch : TransactionBatch) (sigs : List BatchConfirmResponse)
      (answer : PeggyError ⊎ Valset) (h : History)
      → Numbered i (sent h)
      → Ends Numbered IsNumbered (submit_with r nonce i batch sigs answer h)
  unfolding submit_with
  submit_with-Ends i batch sigs (inl e) h p = pure-Ends Numbered IsNumbered i h p
  submit_with-Ends i batch sigs (inr current) h p =
      >>=-Ends (λ n sends. (n ≡ nonce + i) × Numbered i sends) Numbered IsNumbered _ _ h
        (pure_result-Ends (λ n sends. (n ≡ nonce + i) × Numbered i sends) IsNumbered _ h
          (λ n e. (current_nonce_eq i n e, p)) (to_numbered i (sent h) p))
        λ n next (e, q). send_next n next e q
    where
      send_next :
          (n : ℕ) (next : History)
          → n ≡ nonce + i
          → Numbered i (sent next)
          → Ends Numbered IsNumbered (
              (attempt (
                    send_eth_transaction_batch r.num r.encode_call r.world current batch sigs
                      r.peggy_contract_address r.ethereum_key n)
                  >>= λ res. pure (ok (i + 1)))
                next)
      send_next n next e q =
          let submit : Io (Unit {0}) =
            send_eth_transaction_batch r.num r.encode_call r.world current batch sigs
              r.peggy_contract_address r.ethereum_key n in
          >>=-Ends (λ _. Numbered (i + 1)) Numbered IsNumbered _ _ next
            (Ends-any (Numbered (i + 1)) IsNumbered (attempt submit) next (to_numbered (i + 1)) (
              subst (Numbered (i + 1)) (sym (attempt-sent submit next))
                (Numbered-submission i batch sigs current n next e q)))
            λ res after s. pure-Ends Numbered IsNumbered (i + 1) after s

  submit_if_newer-Ends :
      (i : ℕ) (batch : TransactionBatch) (sigs : List BatchConfirmResponse)
      (answer : PeggyError ⊎ ℕ) (h : History)
      → Numbered i (sent h)
      → Ends Numbered IsNumbered (submit_if_newer r nonce i batch sigs answer h)
  unfolding submit_if_newer submit_current
  submit_if_newer-Ends i batch sigs (inl e) h p =
      pure_result-Ends Numbered IsNumbered panic h (λ a q. unwrap-none a q)
        (to_numbered i (sent h) p)
  submit_if_newer-Ends i batch sigs (inr latest) h p = elim (Bool-cases (ltb latest batch.nonce)) [
    | inl newer ↦ rw newer (
        >>=-Ends (λ _. Numbered i) Numbered IsNumbered _ _ h
          (quiet-Ends (Numbered i) IsNumbered (attempt (find_latest_valset r)) h
            (attempt-IsQuiet _ (find_latest_valset-IsQuiet r)) (to_numbered i) p)
          (submit_with-Ends i batch sigs))
    | inr older ↦ rw older (pure-Ends Numbered IsNumbered i h p)
  ]

  submit_signed-Ends :
      (i : ℕ) (batch : TransactionBatch) (answer : PeggyError ⊎ List BatchConfirmResponse)
      (h : History)
      → Numbered i (sent h)
      → Ends Numbered IsNumbered (submit_signed r nonce i batch answer h)
  unfolding submit_signed
  submit_signed-Ends i batch (inl e) h p = pure-Ends Numbered IsNumbered i h p
  submit_signed-Ends i batch (inr sigs) h p =
      >>=-Ends (λ _. Numbered i) Numbered IsNumbered _ _ h
        (quiet-Ends (Numbered i) IsNumbered
          (attempt (
            get_tx_batch_nonce r.num r.encode_call r.world r.peggy_contract_address
              batch.token_contract))
          h (attempt-IsQuiet _ (get_tx_batch_nonce-IsQuiet _ _ _ _ _)) (to_numbered i) p)
        (submit_if_newer-Ends i batch sigs)

  relay_batch-Ends :
      (i : ℕ) (batch : TransactionBatch) (h : History)
      → Numbered i (sent h)
      → Ends Numbered IsNumbered (relay_batch r nonce i batch h)
  unfolding relay_batch
  relay_batch-Ends i batch h p =
      >>=-Ends (λ _. Numbered i) Numbered IsNumbered _ _ h
        (quiet-Ends (Numbered i) IsNumbered
          (attempt (
            get_transaction_batch_signatures r.num r.eth r.parsers r.world batch.nonce
              batch.token_contract))
          h (attempt-IsQuiet _ (get_transaction_batch_signatures-IsQuiet _ _ _ _ _ _))
          (to_numbered i) p)
        (submit_signed-Ends i batch)

  pub relay_each-Ends :
      (batches : List TransactionBatch) (i : ℕ) (h : History)
      → Numbered i (sent h)
      → Ends (λ _. IsNumbered) IsNumbered (relay_each r nonce i batches h)
  unfolding relay_each
  relay_each-Ends [] i h p = pure-Ends (λ _. IsNumbered) IsNumbered tt h (to_numbered i (sent h) p)
  relay_each-Ends (batch ∷ rest) i h p =
      >>=-Ends Numbered (λ _. IsNumbered) IsNumbered _ _ h (relay_batch-Ends i batch h p)
        λ next after q. relay_each-Ends rest next after q

module _ (r : Relayer) (h : History) where
  -- After the history, submissions were sent whose nonces count up from the number of transactions
  -- that the node answered for our address.
  unfoldable pub IsRound : List Sent → Type 0
  IsRound sends =
      (our_address : EthAddress) × (asked : History) × (nonce : ℕ) × (r.ethereum_key.to_public_key
        ≡ ok our_address)
      × ((get_count r our_address asked).0 ≡ ok nonce)
      × IsNumbered r nonce (sent h) sends

  relay_sorted-sends :
      (our_address : EthAddress) (batches : List TransactionBatch) (answer : PeggyError ⊎ ℕ)
      (asked next : History)
      → sent next ≡ sent h
      → r.ethereum_key.to_public_key ≡ ok our_address
      → attempt (get_count r our_address) asked ≡ (ok answer, next)
      → SendsOnly IsRound (relay_sorted r batches answer) next
  unfolding relay_sorted IsRound
  relay_sorted-sends our_address batches (inl e) asked next quiet key a = inl (pure-IsQuiet _ next)
  relay_sorted-sends our_address batches (inr nonce) asked next quiet key a = inr (
    our_address,
    asked,
    nonce,
    key,
    attempt-ok _ asked next nonce a,
    Ends-sent (IsNumbered r nonce (sent h)) (relay_each r nonce 0 batches next)
        (relay_each-Ends r nonce (sent h) batches 0 next (rw quiet (Numbered.none_yet))),
  )

  get_count-IsQuiet : (our_address : EthAddress) → IsQuiet (get_count r our_address)
  unfolding get_count sent
  get_count-IsQuiet our_address = perform-IsQuiet _ _ _ (λ h. refl)

  relay_answer-sends :
      (our_address : EthAddress) (answer : PeggyError ⊎ List TransactionBatch) (next : History)
      → sent next ≡ sent h
      → r.ethereum_key.to_public_key ≡ ok our_address
      → SendsOnly IsRound (relay_answer r our_address answer) next
  unfolding relay_answer
  relay_answer-sends our_address (inl e) next quiet key = inl (pure-IsQuiet _ next)
  relay_answer-sends our_address (inr batches) next quiet key =
      >>=-SendsOnly IsRound _ _ next (attempt-IsQuiet _ (get_count-IsQuiet our_address))
        λ answer after e s. relay_sorted-sends our_address _ answer next after (s ∙ quiet) key e

  -- A round of `relay_batches` sends nothing, or only submissions to the contract; each has a nonce of
  -- its own, at least the number of transactions that the node answered for our address, and a
  -- greater one than those before it.
  pub relay_batches-sends : SendsOnly IsRound (relay_batches r) h
  unfolding relay_batches
  relay_batches-sends = pure-SendsOnly IsRound _ _ h λ our_address key.
      >>=-SendsOnly IsRound _ _ h
        (attempt-IsQuiet _ (get_latest_transaction_batches-IsQuiet _ _ _ _))
        λ answer next e s.
          relay_answer-sends our_address answer next s (unwrap_result-eq-ok _ our_address key)
