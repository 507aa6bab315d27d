-- ===== src/MainLoop/Claiming.antt =====
-- What the loop of the oracle broadcasts.
use minter_hub.Io.{History, Io}
use minter_hub.Io.Broadcasting.{
  >>=-AddsAt, >>=-AddsAt_quiet, Adds-weaken, AddsAt, attempt-AddsAt, pure-AddsAt,
  pure-AddsAt_within,
}
use minter_hub.MainLoop.{eth_oracle_main_loop, oracle_from, oracle_round, oracle_rounds}
use minter_hub.MainLoop.Quiet.{log_blocks-AddsAt}
use minter_hub.Oracle.Claiming.{IsClaims, watch_events-IsClaims}
use minter_hub.Prelude.{Option, arith, none, some, suc, zero, ℕ, ◌+◌}
use minter_hub.Resync.Quiet.{get_last_checked_block-AddsAt}
use minter_hub.Send.{Orchestrator}

module _ (s : Orchestrator) where
  abbrev Claims : {A : Type 0} → ℕ → Io A → History → Type 0
  Claims most m h = AddsAt (IsClaims s.oracle) most m h

  oracle_round-Claims : (last : ℕ) (h : History) → Claims 1 (oracle_round s last) h
  unfolding oracle_round
  oracle_round-Claims last h =
      >>=-AddsAt_quiet (IsClaims s.oracle) 1 _ _ h (log_blocks-AddsAt (IsClaims s.oracle) s h)
        λ done h₁ e₁.
          >>=-AddsAt (IsClaims s.oracle) 1 0 _ _ h₁
            (attempt-AddsAt (IsClaims s.oracle) 1 _ h₁ (watch_events-IsClaims s.oracle last h₁))
            λ res h₂ e₂. pure-AddsAt (IsClaims s.oracle) _ h₂

  oracle_rounds-Claims :
      (rounds last : ℕ) (h : History) → Claims rounds (oracle_rounds s rounds last) h
  unfolding oracle_rounds
  oracle_rounds-Claims zero last h = pure-AddsAt (IsClaims s.oracle) _ h
  oracle_rounds-Claims (suc rounds) last h =
      Adds-weaken (IsClaims s.oracle) (1 + rounds) (suc rounds) h _ (omega arith) (
        >>=-AddsAt (IsClaims s.oracle) 1 rounds _ _ h (oracle_round-Claims last h)
          λ new next e. oracle_rounds-Claims rounds new next)

  oracle_from-Claims :
      (rounds : ℕ) (found : Option ℕ) (h : History) → Claims rounds (oracle_from s rounds found) h
  unfolding oracle_from
  oracle_from-Claims rounds none h = pure-AddsAt_within (IsClaims s.oracle) rounds _ h
  oracle_from-Claims rounds (some first) h =
      Adds-weaken (IsClaims s.oracle) (rounds + 0) rounds h _ (omega arith) (
        >>=-AddsAt (IsClaims s.oracle) rounds 0 _ _ h (oracle_rounds-Claims rounds first h)
          λ final next e. pure-AddsAt (IsClaims s.oracle) _ next)

  pub eth_oracle_main_loop-IsClaims :
      (attempts rounds : ℕ) (h : History)
      → AddsAt (IsClaims s.oracle) rounds (eth_oracle_main_loop s attempts rounds) h
  unfolding eth_oracle_main_loop
  eth_oracle_main_loop-IsClaims attempts rounds h =
      >>=-AddsAt_quiet (IsClaims s.oracle) rounds _ _ h (pure-AddsAt (IsClaims s.oracle) _ h)
        λ us h₁ e₁.
          >>=-AddsAt_quiet (IsClaims s.oracle) rounds _ _ h₁
            (get_last_checked_block-AddsAt (IsClaims s.oracle) s.oracle attempts us h₁)
            λ found h₂ e₂. oracle_from-Claims rounds found h₂
