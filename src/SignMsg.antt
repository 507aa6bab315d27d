-- ===== src/SignMsg.antt =====
-- `StdSignMsg` and `StdFee` of orchestrator/deep_space/src, for the messages of this program.
use Prim.Native.String.{String}
use minter_hub.Claims.{Coin, PeggyMsg}
use minter_hub.Prelude.{List, ℕ}

pub record StdFee : Type 0 where
  pub amount : List Coin
  pub gas : ℕ

pub record StdSignMsg : Type 0 where
  pub chain_id : String
  pub account_number : ℕ
  pub sequence : ℕ
  pub fee : StdFee
  pub msgs : List PeggyMsg
  pub memo : String
