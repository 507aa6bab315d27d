-- ===== src/Io.antt =====
-- The calls that the orchestrator makes of an Ethereum node (web30) and of a Cosmos node (the gRPC
-- queries of orchestrator/cosmos_peggy/src/query.rs). What a call returns depends on all calls before
-- it, so that other relayers may act in between.
pub mod Sending
pub mod Broadcasting
pub mod Running
pub mod Ending
pub mod Silent
pub mod Interleaving
pub mod Merging
use Prim.Native.String.{String}
use minter_hub.Batches.{OutgoingTxBatchProto}
use minter_hub.Bytes.{Bytes}
use minter_hub.Error.{PeggyError}
use minter_hub.Events.{Log}
use minter_hub.Outcome.{Outcome, err, map_err, ok, panic, unwrap_result}
use minter_hub.Prelude.{Bool, List, Option, inl, inr, ℕ, ◌∷◌, ◌⊎◌}
use minter_hub.SignMsg.{StdSignMsg}
use minter_hub.Valset.{CosmosAddress, EthAddress}

-- `web30::types::SendTxOption`; a multiplier is its numerator and denominator.
pub data SendTxOption : Type 0 where
  gas_limit : ℕ → SendTxOption
  tx_nonce : ℕ → SendTxOption
  tx_gas_price : ℕ → SendTxOption
  tx_gas_price_multiplier : ℕ → ℕ → SendTxOption
  network_id : ℕ → SendTxOption

-- The calls; the clock of the machine is read and waited for as well.
pub data Request : Type 0 where
  block_number : Request
  gas_price : Request
  net_version : Request
  transaction_count : EthAddress → Request
  call_contract : EthAddress → Bytes → Request
  get_logs : ℕ → ℕ → EthAddress → String → Request
  estimate_gas : EthAddress → EthAddress → Bytes → Request
  send : EthAddress → Bytes → List SendTxOption → Request
  wait_for : ℕ → Request
  erc20_approved : EthAddress → EthAddress → EthAddress → Request
  approve_erc20 : EthAddress → EthAddress → List SendTxOption → Request
  valset_request : ℕ → Request
  last_valset_requests : Request
  valset_confirms : ℕ → Request
  outgoing_tx_batches : Request
  batch_confirms : ℕ → String → Request
  event_nonce_of : CosmosAddress → Request
  pending_valset_of : CosmosAddress → Request
  pending_batch_of : CosmosAddress → Request
  current_valset_request : Request
  oracle_coins : Request
  account_info : CosmosAddress → Request
  latest_cosmos_block : Request
  broadcast : StdSignMsg → Request
  read_clock : Request
  delay : ℕ → Request

-- The calls that were made, the latest first.
abbrev pub History : Type 0
History = List Request

-- `peggy_proto::peggy`
pub record BridgeValidatorProto : Type 0 where
  pub power : ℕ
  pub ethereum_address : String

pub record ValsetProto : Type 0 where
  pub nonce : ℕ
  pub members : List BridgeValidatorProto

pub record MsgValsetConfirmProto : Type 0 where
  pub orchestrator : String
  pub eth_address : String
  pub nonce : ℕ
  pub signature : String

pub record MsgConfirmBatchProto : Type 0 where
  pub nonce : ℕ
  pub orchestrator : String
  pub token_contract : String
  pub eth_signer : String
  pub signature : String

-- The two nodes: their answers, with the text of an error.
pub record World : Type 0 where
  pub eth_block_number : History → Outcome String ℕ
  pub eth_gas_price : History → Outcome String ℕ
  pub eth_net_version : History → Outcome String ℕ
  pub eth_get_transaction_count : History → EthAddress → Outcome String ℕ
  pub eth_call : History → EthAddress → Bytes → Outcome String Bytes
  pub check_for_events : History → ℕ → ℕ → EthAddress → String → Outcome String (List Log)
  pub eth_estimate_gas : History → EthAddress → EthAddress → Bytes → Outcome String ℕ
  pub send_transaction : History → EthAddress → Bytes → List SendTxOption → Outcome String ℕ
  pub wait_for_transaction : History → ℕ → Outcome String (Unit {0})
  pub check_erc20_approved : History → EthAddress → EthAddress → EthAddress → Outcome String Bool
  pub approve_erc20_transfers :
      History → EthAddress → EthAddress → List SendTxOption → Outcome String ℕ
  pub query_valset : History → ℕ → Outcome String (Option ValsetProto)
  pub query_last_valsets : History → Outcome String (List ValsetProto)
  pub query_valset_confirms : History → ℕ → Outcome String (List MsgValsetConfirmProto)
  pub query_batches : History → Outcome String (List OutgoingTxBatchProto)
  pub query_batch_confirms : History → ℕ → String → Outcome String (List MsgConfirmBatchProto)

-- An asynchronous function that returns a `Result`.
abbrev pub Io : Type 0 → Type 0
Io A = History → Outcome PeggyError A × History

module _ {A : Type 0} where
  -- A call, with the conversion of its error.
  unfoldable pub perform : Request → (String → PeggyError) → (History → Outcome String A) → Io A
  perform request from answer h = (map_err from (answer h), request ∷ h)

  -- `.await.unwrap()` and `.await.expect(..)`
  unfoldable pub expect : Io A → Io A
  expect m h = (unwrap_result ((m h).0), (m h).1)

  -- A function that makes no call.
  unfoldable pub pure : Outcome PeggyError A → Io A
  pure result h = (result, h)

  -- The result of a function whose error is not passed on.
  unfoldable pub caught :
      Outcome PeggyError A × History → Outcome PeggyError (PeggyError ⊎ A) × History
  caught (ok a, next) = (ok (inr a), next)
  caught (err e, next) = (ok (inl e), next)
  caught (panic, next) = (panic, next)

  unfoldable pub attempt : Io A → Io (PeggyError ⊎ A)
  attempt m h = caught (m h)

unfoldable pub continue :
    {A B : Type 0} → (A → Io B) → Outcome PeggyError A × History → Outcome PeggyError B × History
continue f (ok a, next) = f a next
continue f (err e, next) = (err e, next)
continue f (panic, next) = (panic, next)

infixl 5 ◌>>=◌ ◌>>◌
unfoldable pub ◌>>=◌ : {A B : Type 0} → Io A → (A → Io B) → Io B
(m >>= f) h = continue f (m h)

abbrev pub ◌>>◌ : {A B : Type 0} → Io A → Io B → Io B
m >> k = m >>= λ _. k
