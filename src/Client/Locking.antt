-- ===== src/Client/Locking.antt =====
-- What the client broadcasts when it has locked funds.
use Prim.Native.String.{String}
use minter_hub.Claims.{Coin, PeggyMsg}
use minter_hub.Client.{Args, CosmosKey, Tools, one_unit, peggy_denom}
use minter_hub.Io.{History}
use minter_hub.Io.Broadcasting.{broadcasts}
use minter_hub.Oracle.{Oracle}
use minter_hub.Outcome.{ok}
use minter_hub.Prelude.{ℕ, ◌∷◌, ◌≡◌}
use minter_hub.Send.{single_msg}
use minter_hub.Valset.{CosmosAddress, EthAddress}

module _ (o : Oracle) where
  -- The message that locks funds, and the one that requests a batch.
  abbrev pub lock_msg : EthAddress → Coin → Coin → CosmosAddress → PeggyMsg
  lock_msg destination amount fee us =
      PeggyMsg.send_to_eth_msg
        (record { sender = us; eth_dest = destination; amount = amount; bridge_fee = fee })

  abbrev pub batch_msg : String → CosmosAddress → PeggyMsg
  batch_msg denom us = PeggyMsg.request_batch_msg (record { orchestrator = us; denom = denom })

  -- The two messages, the latest first.
  abbrev pub LocksAndRequests : EthAddress → Coin → Coin → History → History → Type 0
  LocksAndRequests destination amount fee before after =
      (us : CosmosAddress) × (info : String × ℕ × ℕ) × (later : String × ℕ × ℕ) × (o.our_address
        ≡ ok us)
      × (broadcasts after
          ≡ single_msg fee later (batch_msg amount.denom us)
            ∷ single_msg fee info (lock_msg destination amount fee us)
            ∷ broadcasts before)

module _ (t : Tools) where
  abbrev Locks : Args → ℕ → EthAddress → History → History → Type 0
  Locks args amount erc20 before after =
      (key : CosmosKey) × (url : String) × (destination : EthAddress) × (t.from_phrase
          args.flag_cosmos_phrase
        ≡ ok key)
      × (t.parse_url args.flag_cosmos_rpc ≡ ok url)
      × (t.eth.parse_address args.flag_eth_destination ≡ ok destination)
      × LocksAndRequests (key.account_at url) destination
          (record { denom = peggy_denom t erc20; amount = amount }) (one_unit args.flag_fees) before
          after
