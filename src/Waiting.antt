-- ===== src/Waiting.antt =====
-- orchestrator/cosmos_peggy/src/utils.rs: waiting for the Cosmos chain. Times are in milliseconds. The
-- loops are given a number of rounds; they return `none` when it is used up.
pub mod Ending
mod Tests
use Prim.Native.String.{String}
use minter_hub.Error.{PeggyError}
use minter_hub.Io.{History, Io, Request, attempt, expect, perform, pure, ◌>>=◌, ◌>>◌}
use minter_hub.Outcome.{Outcome, ok, panic}
use minter_hub.Prelude.{
  Option, if◌then◌else◌, inl, inr, ltb, none, some, suc, zero, ℕ, ◌-◌, ◌==◌, ◌∷◌, ◌⊎◌,
}

-- What is waited for: the height of the last commit that `get_latest_block` returns, and the clock.
pub record CosmosChain : Type 0 where
  pub latest_height : History → Outcome String ℕ
  pub now : History → ℕ

module _ (c : CosmosChain) where
  -- `Instant::now()`
  unfoldable pub read_now : Io ℕ
  read_now h = (ok (c.now h), Request.read_clock ∷ h)

  -- `delay_for(Duration::from_secs(1))`
  unfoldable pub delay_second : Io (Unit {0})
  delay_second h = (ok tt, Request.delay 1000 ∷ h)

  unfoldable pub get_latest_block : Io ℕ
  get_latest_block =
      perform Request.latest_cosmos_block PeggyError.cosmos_rest_error c.latest_height

  -- `if Instant::now() - start > timeout { panic!(..) }`, and the next round. An `Instant` is not
  -- before an earlier one, so the difference is that of the numbers.
  unfoldable pub unless_late : ℕ → ℕ → Io (Option (Unit {0})) → Io (Option (Unit {0}))
  unless_late start timeout next_round = do
    later ← read_now
    if ltb timeout (later - start) then pure panic else next_round

  -- `while current_block == ..`
  unfoldable pub wait_while_same : ℕ → ℕ → ℕ → ℕ → Io (Option (Unit {0}))
  wait_while_same zero start timeout current_block = pure (ok none)
  wait_while_same (suc rounds) start timeout current_block =
      let next_round = wait_while_same rounds start timeout current_block in
      expect get_latest_block >>= λ height.
      if current_block == height
      then delay_second >> unless_late start timeout next_round
      else pure (ok (some tt))

  unfoldable pub wait_for_next_cosmos_block : ℕ → ℕ → Io (Option (Unit {0}))
  wait_for_next_cosmos_block rounds timeout = do
    start ← read_now
    current_block ← expect get_latest_block
    wait_while_same rounds start timeout current_block

  -- `while current_block.is_err()`, with what follows the loop.
  unfoldable pub wait_while_failed :
      ℕ → ℕ → ℕ → Io (Option (Unit {0})) → PeggyError ⊎ ℕ → Io (Option (Unit {0}))
  wait_while_failed rounds start timeout rest (inr current_block) = rest
  wait_while_failed zero start timeout rest (inl e) = pure (ok none)
  wait_while_failed (suc rounds) start timeout rest (inl e) = do
    delay_second
    current_block ← attempt get_latest_block
    unless_late start timeout (wait_while_failed rounds start timeout rest current_block)

  -- A loop whose rounds are used up ends the whole.
  unfoldable pub then_wait : ℕ → ℕ → Option (Unit {0}) → Io (Option (Unit {0}))
  then_wait rounds timeout none = pure (ok none)
  then_wait rounds timeout (some done) = wait_for_next_cosmos_block rounds timeout

  -- The two blocks that are waited for once the chain is there.
  unfoldable pub wait_for_two_blocks : ℕ → ℕ → Io (Option (Unit {0}))
  wait_for_two_blocks rounds timeout =
      wait_for_next_cosmos_block rounds timeout >>= then_wait rounds timeout

  unfoldable pub wait_for_cosmos_online : ℕ → ℕ → Io (Option (Unit {0}))
  wait_for_cosmos_online rounds timeout = do
    start ← read_now
    current_block ← attempt get_latest_block
    wait_while_failed rounds start timeout (wait_for_two_blocks rounds timeout) current_block
