-- ===== src/MainLoop/Confirming.antt =====
-- A number of rounds of the signer broadcast only confirmations of what the chain hands out.
use Prim.Native.String.{String}
use minter_hub.Batches.{TransactionBatch, encode_tx_batch_confirm}
use minter_hub.Bytes.{Bytes}
use minter_hub.Claims.{PeggyMsg}
use minter_hub.Error.{PeggyError}
use minter_hub.Io.{History, Io, attempt}
use minter_hub.Io.Broadcasting.{
  >>=-AddsAt, >>=-AddsAt_quiet, Adds-weaken, AddsAt, attempt-AddsAt, broadcast-AddsAt, broadcasts,
  perform-AddsAt, pure-AddsAt, pure-AddsAt_within,
}
use minter_hub.Io.Running.{attempt-result, pure-ok, unwrapped}
use minter_hub.MainLoop.{
  get_oldest_unsigned_transaction_batch, get_oldest_unsigned_valset, sign_pending_batch,
  sign_pending_valset, signer_round, signer_rounds,
}
use minter_hub.MainLoop.Quiet.{log_blocks-AddsAt}
use minter_hub.Oracle.Quiet.{get_tx_info-AddsAt}
use minter_hub.Outcome.{ok, ok-injective}
use minter_hub.Prelude.{
  Option, ap, arith, inl, inr, none, refl, some, suc, sym, zero, ℕ, ◌*◌, ◌+◌, ◌∙◌, ◌≡◌, ◌⊎◌,
}
use minter_hub.Send.{
  Orchestrator, confirm_of_batch, confirm_of_valset, send_batch_confirm, send_valset_confirm,
  sign_and_send, single_msg,
}
use minter_hub.SignMsg.{StdSignMsg}
use minter_hub.Valset.{CosmosAddress, EthAddress, Valset}

module _ (s : Orchestrator) (peggy_id : String) (us : CosmosAddress) where
  -- A confirmation of a validator set that the chain answered as pending for us.
  abbrev pub IsValsetConfirm : StdSignMsg → Type 0
  IsValsetConfirm msg =
      (asked : History) × (valset : Valset) × (eth : EthAddress) × (info : String × ℕ × ℕ)
      × ((get_oldest_unsigned_valset s us asked).0 ≡ ok (some valset))
      × (s.eth_public_key ≡ ok eth)
      × (msg
          ≡ single_msg s.oracle.fee info
              (PeggyMsg.valset_confirm_msg (confirm_of_valset s us eth peggy_id valset)))

  -- A confirmation of a batch that the chain answered as pending for us.
  abbrev pub IsBatchConfirm : StdSignMsg → Type 0
  IsBatchConfirm msg =
      (asked : History) × (batch : TransactionBatch) × (eth : EthAddress) × (info : String × ℕ × ℕ)
      × (checkpoint : Bytes) × ((get_oldest_unsigned_transaction_batch s us asked).0
          ≡ ok (some batch))
      × (s.eth_public_key ≡ ok eth)
      × (encode_tx_batch_confirm {E = PeggyError} s.encode_tokens peggy_id batch ≡ ok checkpoint)
      × (msg
          ≡ single_msg s.oracle.fee info
              (PeggyMsg.confirm_batch_msg (confirm_of_batch s us eth batch checkpoint)))

  unfoldable pub IsConfirm : StdSignMsg → Type 0
  IsConfirm msg = IsValsetConfirm msg ⊎ IsBatchConfirm msg

  abbrev pub Confirms : {A : Type 0} → ℕ → Io A → History → Type 0
  Confirms most m h = AddsAt IsConfirm most m h

  sign_and_send-Confirms :
      (msg : StdSignMsg) (h : History) → IsConfirm msg → Confirms 1 (sign_and_send s.oracle msg) h
  unfolding sign_and_send
  sign_and_send-Confirms msg h p =
      >>=-AddsAt_quiet IsConfirm 1 _ _ h (pure-AddsAt IsConfirm _ h)
        λ tx next e. broadcast-AddsAt IsConfirm msg _ _ next p

  module _ (key : s.oracle.our_address ≡ ok us) where
    ours : (other : CosmosAddress) → s.oracle.our_address ≡ ok other → us ≡ other
    ours other e = ok-injective (sym key ∙ e)

    send_valset_confirm-Confirms :
        (valset : Valset) (h asked : History)
        → (get_oldest_unsigned_valset s us asked).0 ≡ ok (some valset)
        → Confirms 1 (send_valset_confirm s valset peggy_id) h
    unfolding send_valset_confirm IsConfirm
    send_valset_confirm-Confirms valset h asked pending =
        >>=-AddsAt_quiet IsConfirm 1 _ _ h (pure-AddsAt IsConfirm _ h) λ other h₁ e₁.
          >>=-AddsAt_quiet IsConfirm 1 _ _ h₁ (pure-AddsAt IsConfirm _ h₁) λ eth h₂ e₂.
            >>=-AddsAt_quiet IsConfirm 1 _ _ h₂ (get_tx_info-AddsAt IsConfirm s.oracle other h₂)
              λ info h₃ e₃. sign_and_send-Confirms _ h₃ (
                inl (
                  asked,
                  valset,
                  eth,
                  info,
                  pending,
                  unwrapped s.eth_public_key h₁ eth e₂,
                  ap
                      (λ a.
                        single_msg s.oracle.fee info
                          (PeggyMsg.valset_confirm_msg (confirm_of_valset s a eth peggy_id valset)))
                      (sym (ours other (unwrapped s.oracle.our_address h other e₁))),
                ))

    send_batch_confirm-Confirms :
        (batch : TransactionBatch) (h asked : History)
        → (get_oldest_unsigned_transaction_batch s us asked).0 ≡ ok (some batch)
        → Confirms 1 (send_batch_confirm s batch peggy_id) h
    unfolding send_batch_confirm IsConfirm
    send_batch_confirm-Confirms batch h asked pending =
        >>=-AddsAt_quiet IsConfirm 1 _ _ h (pure-AddsAt IsConfirm _ h) λ other h₁ e₁.
          >>=-AddsAt_quiet IsConfirm 1 _ _ h₁ (pure-AddsAt IsConfirm _ h₁) λ eth h₂ e₂.
            >>=-AddsAt_quiet IsConfirm 1 _ _ h₂ (get_tx_info-AddsAt IsConfirm s.oracle other h₂)
              λ info h₃ e₃.
                >>=-AddsAt_quiet IsConfirm 1 _ _ h₃ (pure-AddsAt IsConfirm _ h₃) λ checkpoint h₄ e₄.
                  sign_and_send-Confirms _ h₄ (
                    inr (
                      asked,
                      batch,
                      eth,
                      info,
                      checkpoint,
                      pending,
                      unwrapped s.eth_public_key h₁ eth e₂,
                      pure-ok _ h₃ checkpoint e₄,
                      ap
                          (λ a. single_msg s.oracle.fee info (
                            PeggyMsg.confirm_batch_msg (confirm_of_batch s a eth batch checkpoint)))
                          (sym (ours other (unwrapped s.oracle.our_address h other e₁))),
                    ))

    sign_pending_valset-Confirms :
        (res : PeggyError ⊎ Option Valset) (h asked : History)
        → (attempt (get_oldest_unsigned_valset s us) asked).0 ≡ ok res
        → Confirms 1 (sign_pending_valset s peggy_id res) h
    unfolding sign_pending_valset
    sign_pending_valset-Confirms (inr (some valset)) h asked e =
        >>=-AddsAt IsConfirm 1 0 _ _ h
          (attempt-AddsAt IsConfirm 1 _ h
            (send_valset_confirm-Confirms valset h asked (attempt-result _ asked (some valset) e)))
          λ res next q. pure-AddsAt IsConfirm _ next
    sign_pending_valset-Confirms (inr none) h asked e = pure-AddsAt_within IsConfirm 1 _ h
    sign_pending_valset-Confirms (inl x) h asked e = pure-AddsAt_within IsConfirm 1 _ h

    pub sign_pending_batch-Confirms :
        (res : PeggyError ⊎ Option TransactionBatch) (h asked : History)
        → (attempt (get_oldest_unsigned_transaction_batch s us) asked).0 ≡ ok res
        → Confirms 1 (sign_pending_batch s peggy_id res) h
    unfolding sign_pending_batch
    sign_pending_batch-Confirms (inr (some batch)) h asked e =
        >>=-AddsAt IsConfirm 1 0 _ _ h
          (attempt-AddsAt IsConfirm 1 _ h
            (send_batch_confirm-Confirms batch h asked (attempt-result _ asked (some batch) e)))
          λ res next q. pure-AddsAt IsConfirm _ next
    sign_pending_batch-Confirms (inr none) h asked e = pure-AddsAt_within IsConfirm 1 _ h
    sign_pending_batch-Confirms (inl x) h asked e = pure-AddsAt_within IsConfirm 1 _ h

    pub get_oldest_unsigned_valset-Confirms :
        (h : History) → Confirms 0 (get_oldest_unsigned_valset s us) h
    unfolding get_oldest_unsigned_valset broadcasts
    get_oldest_unsigned_valset-Confirms h =
        >>=-AddsAt_quiet IsConfirm 0 _ _ h (perform-AddsAt IsConfirm _ _ _ h refl)
          λ answer next e. pure-AddsAt IsConfirm _ next

    pending_valset-Confirms :
        (h : History) → Confirms 0 (attempt (get_oldest_unsigned_valset s us)) h
    pending_valset-Confirms h =
        attempt-AddsAt IsConfirm 0 _ h (get_oldest_unsigned_valset-Confirms h)

    pub pending_batch-Confirms :
        (h : History) → Confirms 0 (attempt (get_oldest_unsigned_transaction_batch s us)) h
    unfolding get_oldest_unsigned_transaction_batch broadcasts
    pending_batch-Confirms h = attempt-AddsAt IsConfirm 0 _ h (
        >>=-AddsAt_quiet IsConfirm 0 _ _ h (perform-AddsAt IsConfirm _ _ _ h refl)
          λ answer next e. pure-AddsAt IsConfirm _ next)

    signer_round-Confirms : (h : History) → Confirms 2 (signer_round s peggy_id us) h
    unfolding signer_round
    signer_round-Confirms h =
        >>=-AddsAt_quiet IsConfirm 2 _ _ h (log_blocks-AddsAt IsConfirm s h) λ done h₁ e₁.
          >>=-AddsAt_quiet IsConfirm 2 _ _ h₁ (pending_valset-Confirms h₁) λ valset h₂ e₂.
            >>=-AddsAt IsConfirm 1 1 _ _ h₂ (sign_pending_valset-Confirms valset h₂ h₁ e₂)
              λ done' h₃ e₃.
                >>=-AddsAt_quiet IsConfirm 1 _ _ h₃ (pending_batch-Confirms h₃)
                  λ batch h₄ e₄. sign_pending_batch-Confirms batch h₄ h₃ e₄

    pub signer_rounds-Confirms :
        (rounds : ℕ) (h : History) → Confirms (2 * rounds) (signer_rounds s rounds peggy_id us) h
    unfolding signer_rounds
    signer_rounds-Confirms zero h = pure-AddsAt IsConfirm _ h
    signer_rounds-Confirms (suc rounds) h =
        Adds-weaken IsConfirm (2 + 2 * rounds) (2 * suc rounds) h _ (omega arith) (
          >>=-AddsAt IsConfirm 2 (2 * rounds) _ _ h (signer_round-Confirms h)
            λ done next e. signer_rounds-Confirms rounds next)
