-- ===== src/MainLoop/Covering.antt =====
-- The rounds of the oracle watch the chain of Ethereum without a gap.
use minter_hub.Error.{PeggyError}
use minter_hub.Io.{History, attempt}
use minter_hub.Io.Running.{>>=-ok, attempt-result, pure-ok}
use minter_hub.MainLoop.{eth_oracle_main_loop, next_block, oracle_from, oracle_round, oracle_rounds}
use minter_hub.Oracle.{watch_events}
use minter_hub.Oracle.Watching.{IsWatched, watch_events-ok}
use minter_hub.Outcome.{none-ne-some, ok, ok-injective, ok_some-injective, unwrap_result-eq-ok}
use minter_hub.Prelude.{
  Option, ap, arith, inl, inr, none, refl, some, subst, suc, sym, zero, ℕ, ◌<◌, ◌∙◌, ◌≡◌, ◌≤◌, ◌⊎◌,
}
use minter_hub.Resync.{get_last_checked_block}
use minter_hub.Send.{Orchestrator}
use minter_hub.Valset.{CosmosAddress}
use native.Mathlib.Decide.{dec_le}

module _ (s : Orchestrator) where
  -- The block lies in a range that a call of `check_for_events` watched.
  abbrev pub IsCovered : ℕ → Type 0
  IsCovered block =
      (start : ℕ) × (end : ℕ) × (start ≤ block) × (block ≤ end) × IsWatched s.oracle start end

  -- A round leaves the last checked block, or watched the range from it to the new one.
  oracle_round-ok :
      (last : ℕ) (h : History) (new : ℕ)
      → (oracle_round s last h).0 ≡ ok new
      → (new ≡ last) ⊎ IsWatched s.oracle last new
  unfolding oracle_round next_block
  oracle_round-ok last h new e =
      let (done, p₁, q₁) = >>=-ok _ _ h new e in
      let (res, p₂, q₂) = >>=-ok _ _ _ new q₁ in decide res _ p₂ (ok-injective (pure-ok _ _ new q₂))
    where
      decide :
          (res : PeggyError ⊎ ℕ) (asked : History)
          → (attempt (watch_events s.oracle last) asked).0 ≡ ok res
          → next_block s last res ≡ new
          → (new ≡ last) ⊎ IsWatched s.oracle last new
      decide (inl x) asked p q = inl (sym q)
      decide (inr b) asked p q =
          let (newest, h', answered, five, watched) =
            watch_events-ok s.oracle last asked b (attempt-result _ asked b p) in
          inr (subst (IsWatched s.oracle last) q watched)

  -- Ranges that were watched one after the other, each from the block at which the one before ends.
  pub data Chain (first : ℕ) : ℕ → Type 0 where
    start : Chain first first
    watch : {last new : ℕ} → Chain first last → IsWatched s.oracle last new → Chain first new

  oracle_rounds-Chain :
      (rounds first last : ℕ) (h : History) (final : ℕ)
      → Chain first last
      → (oracle_rounds s rounds last h).0 ≡ ok final
      → Chain first final
  unfolding oracle_rounds
  oracle_rounds-Chain zero first last h final chain e =
      subst (Chain first) (ok-injective (pure-ok _ h final e)) chain
  oracle_rounds-Chain (suc rounds) first last h final chain e =
      let (new, p, q) = >>=-ok _ _ h final e in
      oracle_rounds-Chain rounds first new _ final (extend (oracle_round-ok last h new p)) q
    where
      extend : {new : ℕ} → (new ≡ last) ⊎ IsWatched s.oracle last new → Chain first new
      extend (inl same) = subst (Chain first) (sym same) chain
      extend (inr watched) = Chain.watch chain watched

  Chain-covers :
      {first final : ℕ} (block : ℕ)
      → Chain first final
      → first < block
      → block ≤ final
      → IsCovered block
  Chain-covers block Chain.start p q = absurd (omega arith)
  Chain-covers block (Chain.watch {last} {new} chain watched) p q = elim (dec_le block last) [
    | yes before ↦ Chain-covers block chain p before
    | no behind ↦ (last, new, omega arith, q, watched)
  ]

  -- The rounds of the oracle skip no block, whatever rounds fail: when a number of rounds from a first
  -- block end at a final one, every block above the first and up to the final one lies in a range that
  -- some round watched, so that its events are claimed if they are new.
  pub oracle_rounds-covers :
      (rounds first : ℕ) (h : History) (final block : ℕ)
      → (oracle_rounds s rounds first h).0 ≡ ok final
      → first < block
      → block ≤ final
      → IsCovered block
  oracle_rounds-covers rounds first h final block e p q =
      Chain-covers block (oracle_rounds-Chain rounds first first h final Chain.start e) p q

  -- When the loop of the oracle has made its rounds, the resync has returned a first block, and from
  -- it the oracle watched ranges one after the other, each from the block at which the one before
  -- ends, up to its last checked block.
  pub eth_oracle_main_loop-Chain :
      (attempts rounds : ℕ) (h : History) (final : ℕ)
      → (eth_oracle_main_loop s attempts rounds h).0 ≡ ok (some final)
      → (us : CosmosAddress) × (first : ℕ) × (asked : History) × (s.oracle.our_address ≡ ok us)
        × ((get_last_checked_block s.oracle attempts us asked).0 ≡ ok (some first))
        × Chain first final
  unfolding eth_oracle_main_loop oracle_from
  eth_oracle_main_loop-Chain attempts rounds h final e =
      let (us, p₁, q₁) = >>=-ok _ _ h (some final) e in
      let (found, p₂, q₂) = >>=-ok _ _ _ (some final) q₁ in
      let (first, same, chain) = from_first found _ q₂ in
      (us, first, _, unwrap_result-eq-ok _ us (pure-ok _ h us p₁), p₂ ∙ ap ok same, chain)
    where
      from_first :
          (found : Option ℕ) (next : History)
          → (oracle_from s rounds found next).0 ≡ ok (some final)
          → (first : ℕ) × (found ≡ some first) × Chain first final
      from_first none next q = absurd (none-ne-some final (pure-ok _ next _ q))
      from_first (some first) next q =
          let (last, p, q') = >>=-ok _ _ next (some final) q in
          (
            first,
            refl,
            subst (Chain first) (ok_some-injective (pure-ok _ _ (some final) q'))
                (oracle_rounds-Chain rounds first first next last Chain.start p),
          )
