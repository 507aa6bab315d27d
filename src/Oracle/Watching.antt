-- ===== src/Oracle/Watching.antt =====
-- What `check_for_events` has done when it returns a block.
use Prim.Native.String.{String}
use minter_hub.Crates.{Num256}
use minter_hub.Error.{PeggyError}
use minter_hub.Events.{Log}
use minter_hub.Events.BatchExecuted.{
  TransactionBatchExecutedEvent, batch_executed_from_logs, batches_after,
}
use minter_hub.Events.Transfers.{
  SendToCosmosEvent, SendToMinterEvent, deposits_after, send_to_cosmos_from_logs,
  send_to_minter_from_logs, transfers_after,
}
use minter_hub.Io.{History, pure}
use minter_hub.Io.Running.{>>=-ok, attempt-result, pure-ok}
use minter_hub.Oracle.{
  Oracle, claim_events, claim_if_any, get_events, get_last_event_nonce, get_newest_block, is_empty,
  process_answers, process_logs, send_ethereum_claims, watch_events,
}
use minter_hub.Outcome.{Outcome, err, guard-eq-ok, ok, unwrap, unwrap_result-eq-ok}
use minter_hub.Prelude.{
  Bool, List, [], ap, arith, false, inl, inr, none, not, refl, some, subst, sym, true, ℕ, ◌+◌, ◌-◌,
  ◌==◌, ◌∙◌, ◌∷◌, ◌≡◌, ◌⊎◌,
}
use minter_hub.Valset.{CosmosAddress}
use native.Mathlib.Decide.{dec_le}

pub sub-ok : (num : Num256) (a b c : ℕ) → unwrap {E = PeggyError} (num.sub a b) ≡ ok c → a ≡ c + b
sub-ok num a b c e = elim (dec_le b a) [
  | yes fits ↦
      let q : c ≡ a - b = of_some (sym (ap unwrap (num.sub_fits a b fits)) ∙ e) in omega arith
  | no short ↦ absurd (of_none (sym (ap unwrap (num.sub_underflows a b (omega arith))) ∙ e))
]
  where
    of_some : {x y : ℕ} → unwrap {E = PeggyError} (some x) ≡ ok y → y ≡ x
    of_some e = cc

    of_none : {y : ℕ} → unwrap {E = PeggyError} none ≡ ok y → ⊥
    of_none e = cc

module _ (o : Oracle) (us : CosmosAddress) where
  -- The claims of these events were sent, and the chain's nonce for us changed.
  unfoldable pub AreClaimed :
      ℕ
      → List SendToCosmosEvent
      → List TransactionBatchExecutedEvent
      → List SendToMinterEvent
      → Type 0
  AreClaimed last deposits withdraws transfers =
      (before : History) × (after : History) × (nonce : ℕ) × ((send_ethereum_claims o deposits
          withdraws transfers before).0
        ≡ ok tt)
      × ((get_last_event_nonce o us after).0 ≡ ok nonce)
      × ((nonce == last) ≡ false)

  -- The logs parse, and all of their events above the last nonce of the chain are claimed, if any.
  unfoldable pub AreProcessed : List Log → List Log → List Log → Type 0
  AreProcessed batch_logs deposit_logs transfer_logs =
      (asked : History) × (last : ℕ) × (withdraws : List TransactionBatchExecutedEvent)
      × (deposits : List SendToCosmosEvent) × (transfers : List SendToMinterEvent)
      × (batch_executed_from_logs o.num o.eth batch_logs ≡ ok withdraws)
      × (send_to_cosmos_from_logs o.num o.eth deposit_logs ≡ ok deposits)
      × (send_to_minter_from_logs o.num o.eth transfer_logs ≡ ok transfers)
      × ((get_last_event_nonce o us asked).0 ≡ ok last)
      × (((deposits_after last deposits ≡ [])
            × (batches_after last withdraws ≡ [])
            × (transfers_after last transfers ≡ []))
          ⊎ AreClaimed last (deposits_after last deposits) (batches_after last withdraws)
              (transfers_after last transfers))

  AreClaimed-claim_events :
      (last : ℕ) (deposits : List SendToCosmosEvent)
      (withdraws : List TransactionBatchExecutedEvent) (transfers : List SendToMinterEvent)
      (h : History)
      → (claim_events o us last deposits withdraws transfers h).0 ≡ ok tt
      → AreClaimed last deposits withdraws transfers
  unfolding claim_events AreClaimed
  AreClaimed-claim_events last deposits withdraws transfers h e =
      let (res, p, q) = >>=-ok _ _ h tt e in
      let (nonce, p', q') = >>=-ok _ _ _ tt q in
      (h, _, nonce, p, p', not_eq (nonce == last) (guard-eq-ok _ _ tt (pure-ok _ _ tt q')))
    where
      not_eq : (b : Bool) → not b ≡ true → b ≡ false
      not_eq true e = cc
      not_eq false e = refl

  claim_if_any-ok :
      (last : ℕ) (deposits : List SendToCosmosEvent)
      (withdraws : List TransactionBatchExecutedEvent) (transfers : List SendToMinterEvent)
      (h : History)
      → (claim_if_any o us last deposits withdraws transfers h).0 ≡ ok tt
      → ((deposits ≡ []) × (withdraws ≡ []) × (transfers ≡ []))
        ⊎ AreClaimed last deposits withdraws transfers
  unfolding claim_if_any is_empty
  claim_if_any-ok last [] [] [] h e = inl (refl, refl, refl)
  claim_if_any-ok last [] [] (x ∷ xs) h e = inr (AreClaimed-claim_events last [] [] (x ∷ xs) h e)
  claim_if_any-ok last [] (y ∷ ys) xs h e = inr (AreClaimed-claim_events last [] (y ∷ ys) xs h e)
  claim_if_any-ok last (z ∷ zs) ys xs h e = inr (AreClaimed-claim_events last (z ∷ zs) ys xs h e)

  process_logs-ok :
      (valset_logs batch_logs deposit_logs transfer_logs : List Log) (h : History)
      → (process_logs o us valset_logs batch_logs deposit_logs transfer_logs h).0 ≡ ok tt
      → AreProcessed batch_logs deposit_logs transfer_logs
  unfolding process_logs AreProcessed
  process_logs-ok valset_logs batch_logs deposit_logs transfer_logs h e =
      let (valsets, p₁, q₁) = >>=-ok _ _ h tt e in
      let (withdraws, p₂, q₂) = >>=-ok _ _ _ tt q₁ in
      let (deposits, p₃, q₃) = >>=-ok _ _ _ tt q₂ in
      let (transfers, p₄, q₄) = >>=-ok _ _ _ tt q₃ in
      let (last, p₅, q₅) = >>=-ok _ _ _ tt q₄ in
      (
        _,
        last,
        withdraws,
        deposits,
        transfers,
        pure-ok _ _ withdraws p₂,
        pure-ok _ _ deposits p₃,
        pure-ok _ _ transfers p₄,
        p₅,
        claim_if_any-ok last _ _ _ _ q₅,
      )

  not_ok : (e : PeggyError) (h : History) → (pure {A = Unit {0}} (err e) h).0 ≡ ok tt → ⊥
  unfolding pure
  not_ok e h p = cc

  -- All four answers are logs, and they are processed.
  unfoldable pub AnswersFit :
      PeggyError ⊎ List Log
      → PeggyError ⊎ List Log
      → PeggyError ⊎ List Log
      → PeggyError ⊎ List Log
      → Type 0
  AnswersFit valsets batches deposits transfers =
      (valset_logs : List Log) × (batch_logs : List Log) × (deposit_logs : List Log)
      × (transfer_logs : List Log) × (valsets ≡ inr valset_logs)
      × (batches ≡ inr batch_logs)
      × (deposits ≡ inr deposit_logs)
      × (transfers ≡ inr transfer_logs)
      × AreProcessed batch_logs deposit_logs transfer_logs

  process_answers-ok :
      (valsets batches deposits transfers : PeggyError ⊎ List Log) (h : History)
      → (process_answers o us valsets batches deposits transfers h).0 ≡ ok tt
      → AnswersFit valsets batches deposits transfers
  unfolding process_answers AnswersFit
  process_answers-ok (inr v) (inr b) (inr d) (inr t) h e =
      (v, b, d, t, refl, refl, refl, refl, process_logs-ok v b d t h e)
  process_answers-ok (inl x) b d t h e = absurd (not_ok _ h e)
  process_answers-ok (inr v) (inl x) d t h e = absurd (not_ok _ h e)
  process_answers-ok (inr v) (inr b) (inl x) t h e = absurd (not_ok _ h e)
  process_answers-ok (inr v) (inr b) (inr d) (inl x) h e = absurd (not_ok _ h e)

module _ (o : Oracle) where
  abbrev pub hub_signature : String
  hub_signature = "SendToHubEvent(address,address,bytes32,uint256,uint256)"

  abbrev pub minter_signature : String
  minter_signature = "SendToMinterEvent(address,address,bytes32,uint256,uint256)"

  abbrev pub batch_signature : String
  batch_signature = "TransactionBatchExecutedEvent(uint256,address,address,uint256)"

  -- From the first block to the last, the node answered with logs, and their events are processed.
  unfoldable pub IsWatched : ℕ → ℕ → Type 0
  IsWatched starting_block latest_block =
      (us : CosmosAddress) × (deposit_logs : List Log) × (transfer_logs : List Log)
      × (batch_logs : List Log) × (h₁ : History) × (h₂ : History) × (h₃ : History) × (o.our_address
          ≡ ok us)
      × ((get_events o starting_block latest_block hub_signature h₁).0 ≡ ok deposit_logs)
      × ((get_events o starting_block latest_block minter_signature h₂).0 ≡ ok transfer_logs)
      × ((get_events o starting_block latest_block batch_signature h₃).0 ≡ ok batch_logs)
      × AreProcessed o us batch_logs deposit_logs transfer_logs

  pub watch_events-ok :
      (starting_block : ℕ) (h : History) (latest_block : ℕ)
      → (watch_events o starting_block h).0 ≡ ok latest_block
      → (newest : ℕ) × (asked : History) × ((get_newest_block o asked).0 ≡ ok newest)
        × (newest ≡ latest_block + 5)
        × IsWatched starting_block latest_block
  unfolding watch_events IsWatched AnswersFit
  watch_events-ok starting_block h b e =
      let (us, p₁, q₁) = >>=-ok _ _ h b e in
      let (newest, p₂, q₂) = >>=-ok _ _ _ b q₁ in
      let (latest, p₃, q₃) = >>=-ok _ _ _ b q₂ in
      let (deposits, p₄, q₄) = >>=-ok _ _ _ b q₃ in
      let (transfers, p₅, q₅) = >>=-ok _ _ _ b q₄ in
      let (batches, p₆, q₆) = >>=-ok _ _ _ b q₅ in
      let (valsets, p₇, q₇) = >>=-ok _ _ _ b q₆ in
      let (done, p₈, q₈) = >>=-ok _ _ _ b q₇ in
      let same : latest ≡ b = ok_eq (pure-ok _ _ b q₈) in
      let (vl, bl, dl, tl, ev, eb, ed, et, processed) =
        process_answers-ok o us valsets batches deposits transfers _ p₈ in
      let watched : IsWatched starting_block latest = (
        us,
        dl,
        tl,
        bl,
        _,
        _,
        _,
        unwrap_result-eq-ok _ us (pure-ok _ _ us p₁),
        attempt-result _ _ dl (p₄ ∙ ap ok ed),
        attempt-result _ _ tl (p₅ ∙ ap ok et),
        attempt-result _ _ bl (p₆ ∙ ap ok eb),
        processed,
      ) in
      (
        newest,
        _,
        p₂,
        sub-ok o.num newest 5 latest (pure-ok _ _ latest p₃) ∙ ap (λ k. k + 5) same,
        subst (IsWatched starting_block) same watched,
      )
    where
      ok_eq : {x y : ℕ} → ◌≡◌ {A = Outcome PeggyError ℕ} (ok x) (ok y) → x ≡ y
      ok_eq e = cc
