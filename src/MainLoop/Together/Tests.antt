-- ===== src/MainLoop/Together/Tests.antt =====
-- The three loops at a concrete node.
use minter_hub.Crates.Examples.{plain_eth, plain_num, plain_parsers}
use minter_hub.Io.{History}
use minter_hub.Io.Broadcasting.{broadcasts}
use minter_hub.Io.Interleaving.{in_sequence}
use minter_hub.Io.Sending.{sent}
use minter_hub.MainLoop.{eth_oracle_main_loop, eth_signer_main_loop}
use minter_hub.MainLoop.Signing.{IsSigned}
use minter_hub.MainLoop.Together.{
  IsStarted, OrchestratorMainLoop, OrchestratorMainLoop-Relays, OrchestratorMainLoop-broadcasts,
  Program,
}
use minter_hub.Oracle.Claiming.{IsClaims}
use minter_hub.Oracle.Examples.{watched_node}
use minter_hub.Outcome.{ok}
use minter_hub.Prelude.{All, [], length, refl, true, ◌*◌, ◌++◌, ◌+◌, ◌≤◌, ◌⊎◌}
use minter_hub.Relayer.{Relayer}
use minter_hub.Relayer.Rounds.{Relays, relayer_rounds}
use minter_hub.Send.Examples.{orchestrator_at}

abbrev idle_relayer : Relayer
idle_relayer = record {
  num = plain_num;
  eth = plain_eth;
  parsers = plain_parsers;
  encode_call = λ signature tokens. ok [];
  world = watched_node 0;
  peggy_contract_address = 99;
  ethereum_key = record {
    to_public_key = ok 5;
    signed_bytes = λ nonce price receiver payload network. ok [];
  };
  skip_small_updates = true;
}

abbrev program : Program
program = record {
  oracle_side = orchestrator_at 4;
  signer_side = orchestrator_at 0;
  relayer_side = idle_relayer;
  pay_fees_in = "hub";
}

program-IsStarted : IsStarted program
unfolding IsStarted
program-IsStarted = (refl, refl, refl, refl, refl, refl)

-- The calls of the loops, one loop after the other.
abbrev calls : History
calls =
    (relayer_rounds idle_relayer 3 []).1
    ++ ((eth_signer_main_loop (orchestrator_at 0) 2 []).1
        ++ (eth_oracle_main_loop (orchestrator_at 4) 1 1 []).1)

loops_run : OrchestratorMainLoop program 1 1 2 3 calls
unfolding OrchestratorMainLoop
loops_run = (program-IsStarted, in_sequence _ _ _)

OrchestratorMainLoop-broadcasts_example :
    All
      (λ msg. IsClaims (orchestrator_at 4).oracle msg ⊎ IsSigned (orchestrator_at 0) msg)
      (broadcasts calls)
    × (length (broadcasts calls) ≤ 1 + 2 * 2)
OrchestratorMainLoop-broadcasts_example =
    OrchestratorMainLoop-broadcasts program 1 1 2 3 calls loops_run

OrchestratorMainLoop-Relays_example : Relays idle_relayer (sent []) (sent calls)
OrchestratorMainLoop-Relays_example = OrchestratorMainLoop-Relays program 1 1 2 3 calls loops_run
