-- ===== src/MainLoop/Quiet.antt =====
-- The queries of blocks at the start of a round broadcast nothing.
use minter_hub.Io.{History}
use minter_hub.Io.Broadcasting.{
  >>=-AddsAt_quiet, AddsAt, attempt-AddsAt, broadcasts, perform-AddsAt, pure-AddsAt,
}
use minter_hub.MainLoop.{get_latest_block_number, log_blocks}
use minter_hub.Oracle.Quiet.{get_newest_block-AddsAt}
use minter_hub.Prelude.{refl}
use minter_hub.Send.{Orchestrator}
use minter_hub.SignMsg.{StdSignMsg}

pub log_blocks-AddsAt :
    (P : StdSignMsg → Type 0) (s : Orchestrator) (h : History) → AddsAt P 0 (log_blocks s) h
unfolding log_blocks get_latest_block_number broadcasts
log_blocks-AddsAt P s h =
    >>=-AddsAt_quiet P 0 _ _ h (attempt-AddsAt P 0 _ h (get_newest_block-AddsAt P s.oracle h))
      λ a h₁ e₁.
        >>=-AddsAt_quiet P 0 _ _ h₁ (attempt-AddsAt P 0 _ h₁ (perform-AddsAt P _ _ _ h₁ refl))
          λ b h₂ e₂. pure-AddsAt P _ h₂
