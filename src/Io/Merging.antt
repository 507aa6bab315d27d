-- ===== src/Io/Merging.antt =====
-- The transactions that runs side by side send.
-- The transaction that a call sends.
use minter_hub.Io.{History, Request}
use minter_hub.Io.Interleaving.{Interleaved, by_oracle, by_relayer, by_signer, no_calls}
use minter_hub.Io.Sending.{Sent, sent}
use minter_hub.Prelude.{List, [], ap, refl, sym, ◌++◌, ◌∙◌, ◌∷◌, ◌≡◌}

transaction : Request → List Sent
transaction (Request.send receiver payload options) = (receiver, payload, options) ∷ []
transaction _ = []

sent-cons : (request : Request) (h : History) → sent (request ∷ h) ≡ transaction request ++ sent h
unfolding transaction sent
sent-cons Request.block_number h = refl
sent-cons Request.gas_price h = refl
sent-cons Request.net_version h = refl
sent-cons (Request.transaction_count a) h = refl
sent-cons (Request.call_contract a b) h = refl
sent-cons (Request.get_logs a b c d) h = refl
sent-cons (Request.estimate_gas a b c) h = refl
sent-cons (Request.wait_for a) h = refl
sent-cons (Request.erc20_approved a b c) h = refl
sent-cons (Request.approve_erc20 a b c) h = refl
sent-cons (Request.valset_request a) h = refl
sent-cons Request.last_valset_requests h = refl
sent-cons (Request.valset_confirms a) h = refl
sent-cons Request.outgoing_tx_batches h = refl
sent-cons (Request.batch_confirms a b) h = refl
sent-cons (Request.event_nonce_of a) h = refl
sent-cons (Request.pending_valset_of a) h = refl
sent-cons (Request.pending_batch_of a) h = refl
sent-cons Request.current_valset_request h = refl
sent-cons Request.oracle_coins h = refl
sent-cons (Request.account_info a) h = refl
sent-cons Request.latest_cosmos_block h = refl
sent-cons (Request.broadcast a) h = refl
sent-cons Request.read_clock h = refl
sent-cons (Request.delay a) h = refl
sent-cons (Request.send receiver payload options) h = refl

no_first : (xs ys : List Sent) → xs ++ ys ≡ [] → (xs ≡ []) × (ys ≡ [])
no_first [] ys e = (refl, e)
no_first (x ∷ xs) ys e = cc

-- A call of a loop that sends nothing.
unsent :
    (request : Request) (own h : History) (rest : List Sent)
    → sent (request ∷ own) ≡ []
    → (sent own ≡ [] → sent h ≡ rest)
    → sent (request ∷ h) ≡ rest
unsent request own h rest e k =
    let (here, before) =
      no_first (transaction request) (sent own) (sym (sent-cons request own) ∙ e) in
    sent-cons request h ∙ ap (λ xs. xs ++ sent h) here ∙ k before

-- If two of the three loops send nothing, then together they send what the third sends alone.
pub merged_sent :
    {a b c h : History} → Interleaved a b c h → sent a ≡ [] → sent b ≡ [] → sent h ≡ sent c
merged_sent no_calls p q = refl
merged_sent (by_oracle {a} {b} {c} {h} request run) p q =
    unsent request a h (sent c) p λ p'. merged_sent run p' q
merged_sent (by_signer {a} {b} {c} {h} request run) p q =
    unsent request b h (sent c) q λ q'. merged_sent run p q'
merged_sent (by_relayer {a} {b} {c} {h} request run) p q =
    sent-cons request h
    ∙ ap (λ xs. transaction request ++ xs) (merged_sent run p q)
    ∙ sym (sent-cons request c)
