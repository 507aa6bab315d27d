-- ===== src/Resync/Tests.antt =====
-- The resync at a node that answers every query of logs with one deposit of the nonce 3 in block 12.
use minter_hub.Oracle.{Oracle}
use minter_hub.Oracle.Examples.{hub_log, oracle_at, watched_node}
use minter_hub.Outcome.{ok, ok-injective}
use minter_hub.Prelude.{[], arith, refl, replicate, ◌∷◌}
use minter_hub.Resync.{get_last_checked_block}
use minter_hub.Resync.Ending.{Recovers, get_last_checked_block-HasEnded}
use minter_hub.Resync.Retrying.{HasEnded}

abbrev still_oracle : Oracle
still_oracle = record (oracle_at 0) {
  world = record (watched_node 0) {
    check_for_events = λ h start end account signature. ok (hub_log ∷ []);
  };
  query_last_event_nonce = λ h us. ok 3;
}

still : Recovers still_oracle (replicate 20 2) 0 120
still = record {
  blocks_answer = λ h late. (120, refl);
  nonces_answer = λ h late. (3, refl);
  logs_answer = λ start end signature h late. (hub_log ∷ [], refl);
  bounded = λ h n e. omega (arith, ok-injective e);
}

get_last_checked_block-HasEnded_example :
    HasEnded ((get_last_checked_block still_oracle 121 (replicate 20 2) []).0)
get_last_checked_block-HasEnded_example =
    get_last_checked_block-HasEnded still_oracle (replicate 20 2) 0 120 still 121 [] (omega arith)
