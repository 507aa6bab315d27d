-- ===== src/Waiting/Tests.antt =====
-- A chain that comes up late, with a new block for every call, and a clock on which a call takes a
-- second.
use minter_hub.Io.{attempt, caught, continue, expect, perform, pure, ◌>>=◌}
use minter_hub.Outcome.{err, ok, panic}
use minter_hub.Prelude.{[], arith, if◌then◌else◌, length, ltb, refl, some, ◌*◌, ◌≡◌}
use minter_hub.Waiting.{
  CosmosChain, delay_second, get_latest_block, read_now, then_wait, unless_late,
  wait_for_cosmos_online, wait_for_next_cosmos_block, wait_for_two_blocks, wait_while_failed,
  wait_while_same,
}
use minter_hub.Waiting.Ending.{Finishes, Ticks, TwoBlocks, wait_for_cosmos_online-Finishes}

abbrev late_chain : CosmosChain
late_chain = record {
  latest_height = λ h. if ltb (length h) 3 then err "down" else ok (length h);
  now = λ h. 1000 * length h;
}

late_chain-Ticks : Ticks late_chain
late_chain-Ticks = record { onward = λ request h. omega arith; delays = λ h. omega arith }

came_up : (wait_for_cosmos_online late_chain 61 60000 []).0 ≡ ok (some tt)
unfolding wait_for_cosmos_online wait_while_failed wait_for_two_blocks wait_for_next_cosmos_block
    then_wait wait_while_same unless_late delay_second read_now get_latest_block expect attempt
    caught perform ◌>>=◌ continue pure
came_up = refl

never_up : (wait_for_cosmos_online late_chain 2 1000 []).0 ≡ panic
unfolding wait_for_cosmos_online wait_while_failed wait_for_two_blocks wait_for_next_cosmos_block
    then_wait wait_while_same unless_late delay_second read_now get_latest_block expect attempt
    caught perform ◌>>=◌ continue pure
never_up = refl

wait_for_cosmos_online-Finishes_example :
    Finishes (TwoBlocks late_chain) (wait_for_cosmos_online late_chain 61 60000 [])
wait_for_cosmos_online-Finishes_example =
    wait_for_cosmos_online-Finishes late_chain late_chain-Ticks 61 60000 (omega arith) []
