-- ===== src/MainLoop/Pending.antt =====
-- The signer confirms the validator set that is pending.
use Prim.Native.String.{String}
use minter_hub.Bytes.{Bytes}
use minter_hub.Claims.{PeggyMsg}
use minter_hub.Io.{History, Request, attempt, perform}
use minter_hub.Io.Broadcasting.{
  >>=-AddsAfter, >>=-AddsAt_quiet, Adds, Adds-same, Adds-trans, Adds-zero, broadcasts, pure-AddsAt,
  quiet_end,
}
use minter_hub.Io.Running.{attempt-history, attempt-runs, pure-runs, reaches}
use minter_hub.MainLoop.{
  eth_signer_main_loop, get_oldest_unsigned_valset, log_blocks, sign_pending_valset, signer_round,
  signer_rounds, signer_with,
}
use minter_hub.MainLoop.Confirming.{
  IsConfirm, get_oldest_unsigned_valset-Confirms, pending_batch-Confirms,
  sign_pending_batch-Confirms, signer_rounds-Confirms,
}
use minter_hub.MainLoop.Quiet.{log_blocks-AddsAt}
use minter_hub.MainLoop.Signing.{IsSigned, bridge_id, bridge_id-quiet}
use minter_hub.Oracle.{get_tx_info}
use minter_hub.Oracle.Quiet.{get_tx_info-AddsAt}
use minter_hub.Outcome.{ok}
use minter_hub.Prelude.{
  List, ap, inr, refl, some, subst, suc, sym, ℕ, ◌*◌, ◌++◌, ◌+◌, ◌∙◌, ◌∷◌, ◌≡◌,
}
use minter_hub.Send.{
  Orchestrator, confirm_of_valset, send_valset_confirm, sign_and_send, single_msg,
}
use minter_hub.SignMsg.{StdSignMsg}
use minter_hub.Valset.{CosmosAddress, EthAddress, Valset}

module _ (s : Orchestrator) where
  -- The confirmation of a validator set as it is broadcast.
  abbrev pub valset_msg : CosmosAddress → EthAddress → String → Valset → String × ℕ × ℕ → StdSignMsg
  valset_msg us eth peggy_id valset info =
      single_msg s.oracle.fee info
        (PeggyMsg.valset_confirm_msg (confirm_of_valset s us eth peggy_id valset))

  module _ (us : CosmosAddress) (eth : EthAddress) (peggy_id : String) (valset : Valset)
      (info : String × ℕ × ℕ) (tx : Bytes) (key : s.oracle.our_address ≡ ok us)
      (eth_key : s.eth_public_key ≡ ok eth)
      (signed : s.oracle.sign_std_msg (valset_msg us eth peggy_id valset info) ≡ ok tx) where
    send_valset_confirm-broadcasts :
        (h told : History)
        → get_tx_info s.oracle us h ≡ (ok info, told)
        → broadcasts ((send_valset_confirm s valset peggy_id h).1)
          ≡ valset_msg us eth peggy_id valset info ∷ broadcasts h
    unfolding send_valset_confirm sign_and_send perform broadcasts
    send_valset_confirm-broadcasts h told telling =
        ap (λ r. broadcasts r.1)
          (pure-runs _ _ h us (rw key refl)
            ∙ pure-runs _ _ h eth (rw eth_key refl)
            ∙ reaches _ h info told _ telling
            ∙ pure-runs _ _ told tx (rw signed refl))
        ∙ ap (λ ms. valset_msg us eth peggy_id valset info ∷ ms)
            (quiet_end (IsConfirm s peggy_id us) (get_tx_info s.oracle us) h info told
              (get_tx_info-AddsAt (IsConfirm s peggy_id us) s.oracle us h) telling)

    sign_pending_valset-broadcasts :
        (h told : History)
        → get_tx_info s.oracle us h ≡ (ok info, told)
        → broadcasts ((sign_pending_valset s peggy_id (inr (some valset)) h).1)
          ≡ valset_msg us eth peggy_id valset info ∷ broadcasts h
    unfolding sign_pending_valset
    sign_pending_valset-broadcasts h told telling =
        Adds-zero (IsConfirm s peggy_id us) _ _ (
          >>=-AddsAfter (IsConfirm s peggy_id us) 0
            (attempt (send_valset_confirm s valset peggy_id)) _ h
            λ res next e. pure-AddsAt (IsConfirm s peggy_id us) _ next)
        ∙ ap broadcasts (attempt-history (send_valset_confirm s valset peggy_id) h)
        ∙ send_valset_confirm-broadcasts h told telling

    -- What a run has broadcast behind the confirmation.
    abbrev AddsConfirmed : ℕ → History → History → Type 0
    AddsConfirmed most h end =
        Adds (IsConfirm s peggy_id us) most
          (Request.broadcast (valset_msg us eth peggy_id valset info) ∷ h) end

    signer_round-confirms :
        (h logged asked told : History)
        → log_blocks s h ≡ (ok tt, logged)
        → get_oldest_unsigned_valset s us logged ≡ (ok (some valset), asked)
        → get_tx_info s.oracle us asked ≡ (ok info, told)
        → AddsConfirmed 1 h ((signer_round s peggy_id us h).1)
    unfolding signer_round broadcasts
    signer_round-confirms h logged asked told logs pending telling =
        let P : StdSignMsg → Type 0 = IsConfirm s peggy_id us in
        let quiet : broadcasts asked ≡ broadcasts h =
          quiet_end P (get_oldest_unsigned_valset s us) logged (some valset) asked
            (get_oldest_unsigned_valset-Confirms s peggy_id us key logged) pending
          ∙ quiet_end P (log_blocks s) h tt logged (log_blocks-AddsAt P s h) logs in
        let sent : broadcasts ((sign_pending_valset s peggy_id (inr (some valset)) asked).1)
            ≡ valset_msg us eth peggy_id valset info ∷ broadcasts h =
          sign_pending_valset-broadcasts asked told telling
          ∙ ap (λ ms. valset_msg us eth peggy_id valset info ∷ ms) quiet in
        subst (λ r. AddsConfirmed 1 h r.1)
          (sym (reaches _ h tt logged _ logs ∙ attempt-runs _ logged (some valset) asked _ pending))
          (Adds-trans P 0 1 _ _ _ (Adds-same P _ _ sent) (
            >>=-AddsAfter P 1 (sign_pending_valset s peggy_id (inr (some valset))) _ asked
              λ done next e.
                >>=-AddsAt_quiet P 1 _ _ next (pending_batch-Confirms s peggy_id us key next)
                  λ batch last q. sign_pending_batch-Confirms s peggy_id us key batch last next q))

    eth_signer_main_loop-confirms :
        (rounds : ℕ) (h identified logged asked told : History) (bytes : Bytes)
        → bridge_id s h ≡ (ok bytes, identified)
        → s.from_utf8 bytes ≡ ok peggy_id
        → log_blocks s identified ≡ (ok tt, logged)
        → get_oldest_unsigned_valset s us logged ≡ (ok (some valset), asked)
        → get_tx_info s.oracle us asked ≡ (ok info, told)
        → AddsConfirmed (1 + 2 * rounds) identified ((eth_signer_main_loop s (suc rounds) h).1)
    unfolding eth_signer_main_loop signer_with signer_rounds
    eth_signer_main_loop-confirms rounds h identified logged asked told bytes id utf8 logs pending
          telling =
        let P : StdSignMsg → Type 0 = IsConfirm s peggy_id us in
        subst (λ r. AddsConfirmed (1 + 2 * rounds) identified r.1)
          (sym (
            pure-runs _ _ h us (rw key refl)
            ∙ pure-runs _ _ h eth (rw eth_key refl)
            ∙ attempt-runs _ h bytes identified _ id
            ∙ pure-runs _ _ identified peggy_id (rw utf8 refl)))
          (Adds-trans P 1 (2 * rounds) _ _ _
            (signer_round-confirms identified logged asked told logs pending telling)
            (>>=-AddsAfter P (2 * rounds) (signer_round s peggy_id us) _ identified
              λ done next q. signer_rounds-Confirms s peggy_id us key rounds next))

    -- If the contract answers with its identifier, the chain answers with a validator set as pending
    -- for our address, the queries of the first round are answered, and our key signs the message,
    -- then the signer broadcasts the confirmation of this set in its first round, before all others
    -- and whatever happens to them or to it.
    pub eth_signer_main_loop-broadcasts :
        (rounds : ℕ) (h identified logged asked told : History) (bytes : Bytes)
        → bridge_id s h ≡ (ok bytes, identified)
        → s.from_utf8 bytes ≡ ok peggy_id
        → log_blocks s identified ≡ (ok tt, logged)
        → get_oldest_unsigned_valset s us logged ≡ (ok (some valset), asked)
        → get_tx_info s.oracle us asked ≡ (ok info, told)
        → (later : List StdSignMsg) × (broadcasts ((eth_signer_main_loop s (suc rounds) h).1)
            ≡ later ++ (valset_msg us eth peggy_id valset info ∷ broadcasts h))
    unfolding Adds broadcasts
    eth_signer_main_loop-broadcasts rounds h identified logged asked told bytes id utf8 logs pending
          telling =
        let (later, e, all, few) =
          eth_signer_main_loop-confirms rounds h identified logged asked told bytes id utf8 logs
            pending telling in
        (
          later,
          e
              ∙ ap (λ ms. later ++ (valset_msg us eth peggy_id valset info ∷ ms))
                  (quiet_end (IsSigned s) (bridge_id s) h bytes identified (bridge_id-quiet s h)
                    id),
        )
