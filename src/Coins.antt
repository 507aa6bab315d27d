-- ===== src/Coins.antt =====
-- orchestrator/peggy_utils/src/types/coins.rs, and `get_coins` of orchestrator/cosmos_peggy/src/query.rs.
use Prim.Native.String.{String}
use minter_hub.Error.{PeggyError}
use minter_hub.Io.{History, Io, Request, perform, pure, ◌>>=◌}
use minter_hub.Outcome.{Outcome, ok, traverse}
use minter_hub.Prelude.{List, ℕ}

-- `peggy_proto::oracle::Coin`
pub record CoinProto : Type 0 where
  pub denom : String
  pub minter_id : ℕ
  pub eth_addr : String

pub record Coin : Type 0 where
  pub denom : String
  pub minter_id : ℕ
  pub eth_addr : String

-- `Coin::from_proto`
unfoldable pub coin_from_proto : CoinProto → Outcome PeggyError Coin
coin_from_proto input =
    ok (record { denom = input.denom; minter_id = input.minter_id; eth_addr = input.eth_addr })

unfoldable pub get_coins : (History → Outcome String (List CoinProto)) → Io (List Coin)
get_coins query_coins = do
  coins ← perform Request.oracle_coins PeggyError.cosmos_grpc_error query_coins
  pure (traverse coin_from_proto coins)
