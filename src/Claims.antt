-- ===== src/Claims.antt =====
-- The messages of orchestrator/cosmos_peggy/src/messages.rs, and the list of claims that
-- `send_ethereum_claims` of send.rs builds.
pub mod Laws
mod Tests
use Prim.Native.String.{String}
use minter_hub.Batches.{Erc20Token}
use minter_hub.Crates.{Num256}
use minter_hub.Ethereum.{expect_nonce}
use minter_hub.Events.BatchExecuted.{TransactionBatchExecutedEvent}
use minter_hub.Events.Transfers.{SendToCosmosEvent, SendToMinterEvent}
use minter_hub.Outcome.{Outcome, ok, traverse, ◌>>=◌}
use minter_hub.Prelude.{Bool, List, [], ltb, ℕ, ◌++◌, ◌∷◌}
use minter_hub.Sorting.{sort}
use minter_hub.Valset.{CosmosAddress, EthAddress}

-- `deep_space::coin::Coin`
pub record Coin : Type 0 where
  pub denom : String
  pub amount : ℕ

pub record SetOrchestratorAddressMsg : Type 0 where
  pub eth_address : EthAddress
  pub validator : String
  pub orchestrator : CosmosAddress

pub record ValsetConfirmMsg : Type 0 where
  pub orchestrator : CosmosAddress
  pub eth_address : EthAddress
  pub nonce : ℕ
  pub eth_signature : String

pub record SendToEthMsg : Type 0 where
  pub sender : CosmosAddress
  pub eth_dest : EthAddress
  pub amount : Coin
  pub bridge_fee : Coin

pub record SendToMinterMsg : Type 0 where
  pub sender : CosmosAddress
  pub minter_dest : String
  pub amount : Coin

pub record RequestBatchMsg : Type 0 where
  pub orchestrator : CosmosAddress
  pub denom : String

pub record RequestMinterBatchMsg : Type 0 where
  pub requester : CosmosAddress

pub record ConfirmBatchMsg : Type 0 where
  pub nonce : ℕ
  pub orchestrator : CosmosAddress
  pub token_contract : EthAddress
  pub eth_signer : EthAddress
  pub eth_signature : String

pub record EthereumBridgeDepositClaim : Type 0 where
  pub event_nonce : ℕ
  pub erc20_token : Erc20Token
  pub ethereum_sender : EthAddress
  pub cosmos_receiver : CosmosAddress

pub record EthereumBridgeWithdrawBatchClaim : Type 0 where
  pub batch_nonce : ℕ
  pub event_nonce : ℕ
  pub erc20_token : EthAddress
  pub sender : EthAddress

pub data EthereumBridgeClaim : Type 0 where
  ethereum_bridge_deposit_claim : EthereumBridgeDepositClaim → EthereumBridgeClaim
  ethereum_bridge_withdraw_batch_claim : EthereumBridgeWithdrawBatchClaim → EthereumBridgeClaim

pub record CreateEthereumClaimsMsg : Type 0 where
  pub ethereum_chain_id : ℕ
  pub bridge_contract_address : EthAddress
  pub orchestrator : CosmosAddress
  pub deposits : List EthereumBridgeClaim
  pub withdraws : List EthereumBridgeClaim

pub record WithdrawClaimMsg : Type 0 where
  pub event_nonce : ℕ
  pub batch_nonce : ℕ
  pub token_contract : EthAddress
  pub orchestrator : CosmosAddress
  pub tx_sender : EthAddress
  pub tx_hash : String

pub record DepositClaimMsg : Type 0 where
  pub event_nonce : ℕ
  pub token_contract : EthAddress
  pub amount : ℕ
  pub ethereum_sender : EthAddress
  pub cosmos_receiver : CosmosAddress
  pub orchestrator : CosmosAddress
  pub tx_hash : String

pub record SendToMinterClaimMsg : Type 0 where
  pub event_nonce : ℕ
  pub token_contract : EthAddress
  pub amount : ℕ
  pub ethereum_sender : EthAddress
  pub minter_receiver : String
  pub orchestrator : CosmosAddress
  pub tx_hash : String

pub data PeggyMsg : Type 0 where
  set_orchestrator_address_msg : SetOrchestratorAddressMsg → PeggyMsg
  valset_confirm_msg : ValsetConfirmMsg → PeggyMsg
  send_to_eth_msg : SendToEthMsg → PeggyMsg
  request_batch_msg : RequestBatchMsg → PeggyMsg
  confirm_batch_msg : ConfirmBatchMsg → PeggyMsg
  create_ethereum_claims_msg : CreateEthereumClaimsMsg → PeggyMsg
  deposit_claim_msg : DepositClaimMsg → PeggyMsg
  send_to_minter_claim_msg : SendToMinterClaimMsg → PeggyMsg
  withdraw_claim_msg : WithdrawClaimMsg → PeggyMsg
  send_to_minter_msg : SendToMinterMsg → PeggyMsg
  request_minter_batch_msg : RequestMinterBatchMsg → PeggyMsg

-- `PeggyMsg::event_nonce`: the messages that are no claims have one that is meant to come last.
unfoldable pub msg_event_nonce : PeggyMsg → ℕ
msg_event_nonce (PeggyMsg.deposit_claim_msg msg) = msg.event_nonce
msg_event_nonce (PeggyMsg.send_to_minter_claim_msg msg) = msg.event_nonce
msg_event_nonce (PeggyMsg.withdraw_claim_msg msg) = msg.event_nonce
msg_event_nonce _ = 99999999999

-- `<` by `PartialOrd for PeggyMsg`
abbrev pub msg_lt : PeggyMsg → PeggyMsg → Bool
msg_lt a b = ltb (msg_event_nonce a) (msg_event_nonce b)

-- `EthereumBridgeDepositClaim::from_event`
unfoldable pub bridge_deposit_from_event : SendToCosmosEvent → EthereumBridgeDepositClaim
bridge_deposit_from_event input = record {
  event_nonce = input.event_nonce;
  erc20_token = record { amount = input.amount; token_contract_address = input.erc20 };
  ethereum_sender = input.sender;
  cosmos_receiver = input.destination;
}

-- `EthereumBridgeWithdrawBatchClaim::from_event`
unfoldable pub bridge_withdraw_from_event :
    TransactionBatchExecutedEvent → EthereumBridgeWithdrawBatchClaim
bridge_withdraw_from_event input = record {
  batch_nonce = input.batch_nonce;
  event_nonce = input.event_nonce;
  erc20_token = input.erc20;
  sender = input.sender;
}

-- The request for a batch to Minter, when there are transfers.
unfoldable pub minter_request : CosmosAddress → List SendToMinterEvent → List PeggyMsg
minter_request our_address [] = []
minter_request our_address (transfer ∷ rest) =
    PeggyMsg.request_minter_batch_msg (record { requester = our_address }) ∷ []

module _ {E : Type 0} (num : Num256) where
  -- `WithdrawClaimMsg::from_event`
  unfoldable pub withdraw_claim_from_event :
      CosmosAddress → TransactionBatchExecutedEvent → Outcome E PeggyMsg
  withdraw_claim_from_event sender input = expect_nonce num input.event_nonce >>= λ event_nonce.
      expect_nonce num input.batch_nonce >>= λ batch_nonce. ok (
        PeggyMsg.withdraw_claim_msg (record {
          event_nonce = event_nonce;
          batch_nonce = batch_nonce;
          token_contract = input.erc20;
          orchestrator = sender;
          tx_sender = input.sender;
          tx_hash = input.tx_hash;
        }))

  -- `DepositClaimMsg::from_event`
  unfoldable pub deposit_claim_from_event : CosmosAddress → SendToCosmosEvent → Outcome E PeggyMsg
  deposit_claim_from_event sender input = expect_nonce num input.event_nonce >>= λ event_nonce. ok (
      PeggyMsg.deposit_claim_msg (record {
        event_nonce = event_nonce;
        token_contract = input.erc20;
        amount = input.amount;
        ethereum_sender = input.sender;
        cosmos_receiver = input.destination;
        orchestrator = sender;
        tx_hash = input.tx_hash;
      }))

  -- `SendToMinterClaimMsg::from_event`, which `send_ethereum_claims` writes out.
  unfoldable pub minter_claim_from_event : CosmosAddress → SendToMinterEvent → Outcome E PeggyMsg
  minter_claim_from_event sender input = expect_nonce num input.event_nonce >>= λ event_nonce. ok (
      PeggyMsg.send_to_minter_claim_msg (record {
        event_nonce = event_nonce;
        token_contract = input.erc20;
        amount = input.amount;
        ethereum_sender = input.sender;
        minter_receiver = input.destination;
        orchestrator = sender;
        tx_hash = input.tx_hash;
      }))

  -- The messages of `send_ethereum_claims`, sorted.
  unfoldable pub claim_msgs :
      CosmosAddress
      → List SendToCosmosEvent
      → List TransactionBatchExecutedEvent
      → List SendToMinterEvent
      → Outcome E (List PeggyMsg)
  claim_msgs our_address deposits withdraws transfers =
      traverse (minter_claim_from_event our_address) transfers >>= λ from_transfers.
      traverse (deposit_claim_from_event our_address) deposits >>= λ from_deposits.
      traverse (withdraw_claim_from_event our_address) withdraws >>= λ from_withdraws. ok (
        sort msg_lt (
          from_transfers
          ++ from_deposits
          ++ from_withdraws
          ++ minter_request our_address transfers))
