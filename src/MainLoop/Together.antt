-- ===== src/MainLoop/Together.antt =====
-- `orchestrator_main_loop` of orchestrator/orchestrator/src/main_loop.rs, which runs the three loops side
-- by side, and the messages of such a run.
mod Tests
use Prim.Native.String.{String}
use mathlib.Core.List.{append-nil}
use minter_hub.Claims.{Coin}
use minter_hub.Io.{History}
use minter_hub.Io.Broadcasting.{Adds, broadcasts}
use minter_hub.Io.Interleaving.{Interleaved, merged_broadcasts}
use minter_hub.Io.Merging.{merged_sent}
use minter_hub.Io.Sending.{sent}
use minter_hub.Io.Silent.{IsSilent}
use minter_hub.MainLoop.{eth_oracle_main_loop, eth_signer_main_loop}
use minter_hub.MainLoop.Claiming.{eth_oracle_main_loop-IsClaims}
use minter_hub.MainLoop.Signing.{IsSigned, eth_signer_main_loop-signs}
use minter_hub.MainLoop.Unsending.{eth_oracle_main_loop-IsQuiet, eth_signer_main_loop-IsQuiet}
use minter_hub.Oracle.Claiming.{IsClaims}
use minter_hub.Prelude.{All, [], arith, length, refl, subst, sym, ℕ, ◌*◌, ◌+◌, ◌∙◌, ◌≡◌, ◌≤◌, ◌⊎◌}
use minter_hub.Relayer.{Relayer}
use minter_hub.Relayer.Rounds.{Relays, relayer_rounds, relayer_rounds-Relays}
use minter_hub.Relayer.Silent.{relayer_rounds-IsSilent}
use minter_hub.Send.{Orchestrator}
use minter_hub.SignMsg.{StdSignMsg}
use minter_hub.Valset.Signing.{signed}

-- What the program is given. The loops share the keys, the contract and the denomination of the
-- fee; each has nodes of its own, since what they answer depends on the other loops as well.
pub record Program : Type 0 where
  pub oracle_side : Orchestrator
  pub signer_side : Orchestrator
  pub relayer_side : Relayer
  pub pay_fees_in : String

module _ (p : Program) where
  abbrev fee : Coin
  fee = record { denom = p.pay_fees_in; amount = 1 }

  -- The arguments that the loops are started with agree.
  unfoldable pub IsStarted : Type 0
  IsStarted =
      (p.oracle_side.oracle.fee ≡ fee)
      × (p.signer_side.oracle.fee ≡ fee)
      × (p.oracle_side.oracle.our_address ≡ p.signer_side.oracle.our_address)
      × (p.oracle_side.oracle.peggy_contract_address ≡ p.signer_side.oracle.peggy_contract_address)
      × (p.oracle_side.oracle.peggy_contract_address ≡ p.relayer_side.peggy_contract_address)
      × (p.signer_side.eth_public_key ≡ p.relayer_side.ethereum_key.to_public_key)

  -- `join3` of the three loops: the calls after a number of rounds of each.
  unfoldable pub OrchestratorMainLoop : ℕ → ℕ → ℕ → ℕ → History → Type 0
  OrchestratorMainLoop attempts oracle_runs signer_runs relayer_runs calls =
      IsStarted
      × Interleaved ((eth_oracle_main_loop p.oracle_side attempts oracle_runs []).1)
          ((eth_signer_main_loop p.signer_side signer_runs []).1)
          ((relayer_rounds p.relayer_side relayer_runs []).1) calls

nothing_sent : sent [] ≡ []
unfolding sent
nothing_sent = refl

module _ (p : Program) where
  -- What a loop has broadcast, when it started with no calls.
  from_nothing :
      (P : StdSignMsg → Type 0) (most : ℕ) (end : History)
      → Adds P most [] end
      → All P (broadcasts end) × (length (broadcasts end) ≤ most)
  unfolding Adds broadcasts
  from_nothing P most end (new, e, all, few) =
      let same : broadcasts end ≡ new = e ∙ append-nil new in rw same (all, few)

  relayer_silent : (rounds : ℕ) → broadcasts ((relayer_rounds p.relayer_side rounds []).1) ≡ []
  unfolding IsSilent broadcasts
  relayer_silent rounds = relayer_rounds-IsSilent p.relayer_side rounds []

  -- However the calls of the three loops follow each other and whatever the nodes answer, each message
  -- that the orchestrator broadcasts is a claim of the oracle or a confirmation of the signer, and
  -- they are at most one for each round of the oracle and two for each round of the signer: the
  -- relayer broadcasts nothing.
  pub OrchestratorMainLoop-broadcasts :
      (attempts oracle_runs signer_runs relayer_runs : ℕ) (calls : History)
      → OrchestratorMainLoop p attempts oracle_runs signer_runs relayer_runs calls
      → All
          (λ msg. IsClaims p.oracle_side.oracle msg ⊎ IsSigned p.signer_side msg)
          (broadcasts calls)
        × (length (broadcasts calls) ≤ oracle_runs + 2 * signer_runs)
  unfolding OrchestratorMainLoop
  OrchestratorMainLoop-broadcasts attempts oracle_runs signer_runs relayer_runs calls
        (started, run) =
      let (claims, few) =
        from_nothing (IsClaims p.oracle_side.oracle) oracle_runs _
          (eth_oracle_main_loop-IsClaims p.oracle_side attempts oracle_runs []) in
      let (signed, fewer) =
        from_nothing (IsSigned p.signer_side) (2 * signer_runs) _
          (eth_signer_main_loop-signs p.signer_side signer_runs []) in
      let (all, len) =
        merged_broadcasts (IsClaims p.oracle_side.oracle) (IsSigned p.signer_side) run claims signed
          (relayer_silent relayer_runs) in
      (all, omega (arith, len, few, fewer))

  -- However the calls of the three loops follow each other and whatever the nodes answer, the
  -- transactions that the orchestrator sends to Ethereum are those of the relayer, whose steps are
  -- updates of the validator set and rounds of submissions: the oracle and the signer send none.
  pub OrchestratorMainLoop-Relays :
      (attempts oracle_runs signer_runs relayer_runs : ℕ) (calls : History)
      → OrchestratorMainLoop p attempts oracle_runs signer_runs relayer_runs calls
      → Relays p.relayer_side (sent []) (sent calls)
  unfolding OrchestratorMainLoop
  OrchestratorMainLoop-Relays attempts oracle_runs signer_runs relayer_runs calls (started, run) =
      subst (Relays p.relayer_side (sent []))
        (sym (
          merged_sent run
            (eth_oracle_main_loop-IsQuiet p.oracle_side attempts oracle_runs [] ∙ nothing_sent)
            (eth_signer_main_loop-IsQuiet p.signer_side signer_runs [] ∙ nothing_sent)))
        (relayer_rounds-Relays p.relayer_side relayer_runs [])
