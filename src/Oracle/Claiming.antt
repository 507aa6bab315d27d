-- ===== src/Oracle/Claiming.antt =====
-- The oracle claims only events that the node answered and that the chain does not have yet.
use Prim.Native.String.{String}
use minter_hub.Claims.{PeggyMsg, claim_msgs}
use minter_hub.Error.{PeggyError}
use minter_hub.Events.{Log}
use minter_hub.Events.BatchExecuted.{
  TransactionBatchExecutedEvent, batch_executed_from_logs, batches_after,
}
use minter_hub.Events.Transfers.{
  SendToCosmosEvent, SendToMinterEvent, deposits_after, send_to_cosmos_from_logs,
  send_to_minter_from_logs, transfers_after,
}
use minter_hub.Io.{History, Io, attempt}
use minter_hub.Io.Broadcasting.{
  >>=-AddsAt, >>=-AddsAt_quiet, AddsAt, broadcast-AddsAt, pure-AddsAt, pure-AddsAt_within,
}
use minter_hub.Io.Running.{attempt-result, pure-ok}
use minter_hub.Oracle.{
  Oracle, claim_events, claim_if_any, claims_msg, get_events, get_last_event_nonce, is_empty,
  process_answers, process_logs, send_ethereum_claims, watch_events,
}
use minter_hub.Oracle.Quiet.{
  get_events-AddsAt, get_last_event_nonce-AddsAt, get_newest_block-AddsAt, get_tx_info-AddsAt,
}
use minter_hub.Oracle.Watching.{batch_signature, hub_signature, minter_signature}
use minter_hub.Outcome.{ok, ok-injective, unwrap_result-eq-ok}
use minter_hub.Prelude.{Bool-cases, List, inl, inr, not, refl, subst, sym, ℕ, ◌||◌, ◌∙◌, ◌≡◌, ◌⊎◌}
use minter_hub.SignMsg.{StdSignMsg}
use minter_hub.Valset.{CosmosAddress}

-- A message of claims: the logs that it rests on, their events, and what is claimed of them.
pub record IsClaims (o : Oracle) (msg : StdSignMsg) : Type 0 where
  pub us : CosmosAddress
  pub start : ℕ
  pub end : ℕ
  pub last : ℕ
  pub batch_logs : List Log
  pub deposit_logs : List Log
  pub transfer_logs : List Log
  pub withdraws : List TransactionBatchExecutedEvent
  pub deposits : List SendToCosmosEvent
  pub transfers : List SendToMinterEvent
  pub info : String × ℕ × ℕ
  pub msgs : List PeggyMsg
  pub ours : o.our_address ≡ ok us
  pub nonce_answered : (h : History) × ((get_last_event_nonce o us h).0 ≡ ok last)
  pub batches_answered :
      (h : History) × ((get_events o start end (batch_signature o) h).0 ≡ ok batch_logs)
  pub deposits_answered :
      (h : History) × ((get_events o start end (hub_signature o) h).0 ≡ ok deposit_logs)
  pub transfers_answered :
      (h : History) × ((get_events o start end (minter_signature o) h).0 ≡ ok transfer_logs)
  pub batches_parsed : batch_executed_from_logs o.num o.eth batch_logs ≡ ok withdraws
  pub deposits_parsed : send_to_cosmos_from_logs o.num o.eth deposit_logs ≡ ok deposits
  pub transfers_parsed : send_to_minter_from_logs o.num o.eth transfer_logs ≡ ok transfers
  pub claimed :
      claim_msgs {E = PeggyError} o.num us
        (deposits_after last deposits)
        (batches_after last withdraws)
        (transfers_after last transfers)
      ≡ ok msgs
  pub message : msg ≡ claims_msg o info msgs

module _ (o : Oracle) where
  -- What is broadcast are claims of this kind, for the given events.
  abbrev Claims : {A : Type 0} → ℕ → Io A → History → Type 0
  Claims most m h = AddsAt (IsClaims o) most m h

  abbrev Evidence :
      List SendToCosmosEvent → List TransactionBatchExecutedEvent → List SendToMinterEvent → Type 0
  Evidence deposits withdraws transfers =
      (us : CosmosAddress) (info : String × ℕ × ℕ) (msgs : List PeggyMsg)
      → o.our_address ≡ ok us
      → claim_msgs {E = PeggyError} o.num us deposits withdraws transfers ≡ ok msgs
      → IsClaims o (claims_msg o info msgs)

  send_ethereum_claims-Claims :
      (deposits : List SendToCosmosEvent) (withdraws : List TransactionBatchExecutedEvent)
      (transfers : List SendToMinterEvent) (h : History)
      → Evidence deposits withdraws transfers
      → Claims 1 (send_ethereum_claims o deposits withdraws transfers) h
  unfolding send_ethereum_claims
  send_ethereum_claims-Claims deposits withdraws transfers h evidence =
      >>=-AddsAt_quiet (IsClaims o) 1 _ _ h (pure-AddsAt (IsClaims o) _ h) λ us h₁ e₁.
        >>=-AddsAt_quiet (IsClaims o) 1 _ _ h₁ (get_tx_info-AddsAt (IsClaims o) o us h₁)
          λ info h₂ e₂.
            >>=-AddsAt_quiet (IsClaims o) 1 _ _ h₂ (pure-AddsAt (IsClaims o) _ h₂) λ msgs h₃ e₃.
              >>=-AddsAt_quiet (IsClaims o) 1 _ _ h₃ (pure-AddsAt (IsClaims o) _ h₃) λ tx h₄ e₄.
                broadcast-AddsAt (IsClaims o) _ _ _ h₄ (
                  evidence us info msgs (unwrap_result-eq-ok _ us (pure-ok _ h us e₁))
                    (pure-ok _ h₂ msgs e₃))

  claim_if_any-Claims :
      (us : CosmosAddress) (last : ℕ) (deposits : List SendToCosmosEvent)
      (withdraws : List TransactionBatchExecutedEvent) (transfers : List SendToMinterEvent)
      (h : History)
      → Evidence deposits withdraws transfers
      → Claims 1 (claim_if_any o us last deposits withdraws transfers) h
  unfolding claim_if_any claim_events
  claim_if_any-Claims us last deposits withdraws transfers h evidence =
      elim (Bool-cases
        (not (is_empty o deposits) || not (is_empty o withdraws) || not (is_empty o transfers))) [
          | inl some_events ↦ rw some_events (
              >>=-AddsAt (IsClaims o) 1 0 _ _ h
                (send_ethereum_claims-Claims deposits withdraws transfers h evidence)
                λ res h₁ e₁.
                  >>=-AddsAt_quiet (IsClaims o) 0 _ _ h₁
                    (get_last_event_nonce-AddsAt (IsClaims o) o us h₁)
                    λ nonce h₂ e₂. pure-AddsAt (IsClaims o) _ h₂)
          | inr no_events ↦ rw no_events (pure-AddsAt_within (IsClaims o) 1 _ h)
        ]

  module _ (start end : ℕ) where
    -- The node answered these logs for the range.
    abbrev Logged : String → List Log → Type 0
    Logged signature logs = (h : History) × ((get_events o start end signature h).0 ≡ ok logs)

    process_logs-Claims :
        (us : CosmosAddress) (valset_logs batch_logs deposit_logs transfer_logs : List Log)
        (h : History)
        → o.our_address ≡ ok us
        → Logged (batch_signature o) batch_logs
        → Logged (hub_signature o) deposit_logs
        → Logged (minter_signature o) transfer_logs
        → Claims 1 (process_logs o us valset_logs batch_logs deposit_logs transfer_logs) h
    unfolding process_logs
    process_logs-Claims us valset_logs batch_logs deposit_logs transfer_logs h key bl dl tl =
        >>=-AddsAt_quiet (IsClaims o) 1 _ _ h (pure-AddsAt (IsClaims o) _ h) λ valsets h₁ e₁.
          >>=-AddsAt_quiet (IsClaims o) 1 _ _ h₁ (pure-AddsAt (IsClaims o) _ h₁) λ withdraws h₂ e₂.
            >>=-AddsAt_quiet (IsClaims o) 1 _ _ h₂ (pure-AddsAt (IsClaims o) _ h₂) λ deposits h₃ e₃.
              >>=-AddsAt_quiet (IsClaims o) 1 _ _ h₃ (pure-AddsAt (IsClaims o) _ h₃)
                λ transfers h₄ e₄.
                  >>=-AddsAt_quiet (IsClaims o) 1 _ _ h₄
                    (get_last_event_nonce-AddsAt (IsClaims o) o us h₄)
                    λ last h₅ e₅.
                      claim_if_any-Claims us last _ _ _ h₅ λ other info msgs key' claimed. record {
                        us = other;
                        start = start;
                        end = end;
                        last = last;
                        batch_logs = batch_logs;
                        deposit_logs = deposit_logs;
                        transfer_logs = transfer_logs;
                        withdraws = withdraws;
                        deposits = deposits;
                        transfers = transfers;
                        info = info;
                        msgs = msgs;
                        ours = key';
                        nonce_answered = (
                          h₄,
                          subst (λ a. (get_last_event_nonce o a h₄).0 ≡ ok last)
                              (ok-injective (sym key ∙ key')) e₅,
                        );
                        batches_answered = bl;
                        deposits_answered = dl;
                        transfers_answered = tl;
                        batches_parsed = pure-ok _ h₁ withdraws e₂;
                        deposits_parsed = pure-ok _ h₂ deposits e₃;
                        transfers_parsed = pure-ok _ h₃ transfers e₄;
                        claimed = claimed;
                        message = refl;
                      }

    -- An attempt of the query of such logs.
    abbrev Attempted : String → PeggyError ⊎ List Log → Type 0
    Attempted signature res =
        (h : History) × ((attempt (get_events o start end signature) h).0 ≡ ok res)

    attempted :
        (signature : String) (logs : List Log)
        → Attempted signature (inr logs)
        → Logged signature logs
    attempted signature logs (h, e) = (h, attempt-result _ h logs e)

    process_answers-Claims :
        (us : CosmosAddress) (valsets batches deposits transfers : PeggyError ⊎ List Log)
        (h : History)
        → o.our_address ≡ ok us
        → Attempted (batch_signature o) batches
        → Attempted (hub_signature o) deposits
        → Attempted (minter_signature o) transfers
        → Claims 1 (process_answers o us valsets batches deposits transfers) h
    unfolding process_answers
    process_answers-Claims us (inr v) (inr b) (inr d) (inr t) h key pb pd pt =
        process_logs-Claims us v b d t h key (attempted _ b pb) (attempted _ d pd)
          (attempted _ t pt)
    process_answers-Claims us (inl x) b d t h key pb pd pt = pure-AddsAt_within (IsClaims o) 1 _ h
    process_answers-Claims us (inr v) (inl x) d t h key pb pd pt =
        pure-AddsAt_within (IsClaims o) 1 _ h
    process_answers-Claims us (inr v) (inr b) (inl x) t h key pb pd pt =
        pure-AddsAt_within (IsClaims o) 1 _ h
    process_answers-Claims us (inr v) (inr b) (inr d) (inl x) h key pb pd pt =
        pure-AddsAt_within (IsClaims o) 1 _ h

  -- However `check_for_events` ends, it broadcasts at most one message, and this claims, in their
  -- order, exactly the events above the last nonce that the chain answered for us among the logs that
  -- the node answered for one range of blocks.
  pub watch_events-IsClaims :
      (starting_block : ℕ) (h : History) → Claims 1 (watch_events o starting_block) h
  unfolding watch_events
  watch_events-IsClaims starting_block h =
      >>=-AddsAt_quiet (IsClaims o) 1 _ _ h (pure-AddsAt (IsClaims o) _ h) λ us h₁ e₁.
        >>=-AddsAt_quiet (IsClaims o) 1 _ _ h₁ (get_newest_block-AddsAt (IsClaims o) o h₁)
          λ newest h₂ e₂.
            >>=-AddsAt_quiet (IsClaims o) 1 _ _ h₂ (pure-AddsAt (IsClaims o) _ h₂) λ latest h₃ e₃.
              >>=-AddsAt_quiet (IsClaims o) 1 _ _ h₃ (get_events-AddsAt (IsClaims o) o _ _ _ h₃)
                λ deposits h₄ e₄.
                  >>=-AddsAt_quiet (IsClaims o) 1 _ _ h₄ (get_events-AddsAt (IsClaims o) o _ _ _ h₄)
                    λ transfers h₅ e₅.
                      >>=-AddsAt_quiet (IsClaims o) 1 _ _ h₅
                        (get_events-AddsAt (IsClaims o) o _ _ _ h₅)
                        λ batches h₆ e₆.
                          >>=-AddsAt_quiet (IsClaims o) 1 _ _ h₆
                            (get_events-AddsAt (IsClaims o) o _ _ _ h₆)
                            λ valsets h₇ e₇.
                              >>=-AddsAt (IsClaims o) 1 0 _ _ h₇
                                (process_answers-Claims starting_block latest us valsets batches
                                  deposits transfers h₇
                                  (unwrap_result-eq-ok _ us (pure-ok _ h us e₁)) (h₅, e₆) (h₃, e₄)
                                  (h₄, e₅))
                                λ done h₈ e₈. pure-AddsAt (IsClaims o) _ h₈
