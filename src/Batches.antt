-- ===== src/Batches.antt =====
-- The batches of orchestrator/peggy_utils/src/types/batches.rs, `ERC20Token` of types/mod.rs, and what
-- is signed for a batch in orchestrator/ethereum_peggy/src/message_signatures.rs. The records whose
-- names end in `Proto` are the messages of the Cosmos chain that they are read from.
pub mod Laws
pub mod Derived
pub mod Ascending
mod Tests
use Prim.Native.String.{String}
use minter_hub.Bytes.{Bytes}
use minter_hub.Crates.{Clarity, Num256}
use minter_hub.Error.{PeggyError}
use minter_hub.Ethereum.{Token}
use minter_hub.Outcome.{Outcome, assert, guard, map_err, ok, ok_or, unwrap, ◌>>=◌, ◌>>◌}
use minter_hub.Prelude.{Bool, List, Option, [], false, length, none, some, true, ℕ, ◌&&◌, ◌==◌, ◌∷◌}
use minter_hub.Valset.{CosmosAddress, EthAddress, EthSignature}

pub record Erc20TokenProto : Type 0 where
  pub amount : String
  pub contract : String

pub record OutgoingTransferTxProto : Type 0 where
  pub id : ℕ
  pub sender : String
  pub dest_address : String
  pub erc20_token : Option Erc20TokenProto
  pub erc20_fee : Option Erc20TokenProto

pub record OutgoingTxBatchProto : Type 0 where
  pub batch_nonce : ℕ
  pub transactions : List OutgoingTransferTxProto

-- `FromStr` of an address of Cosmos, of a `Uint256` and of a signature.
pub record Parsers : Type 0 where
  pub parse_cosmos_address : String → Outcome String CosmosAddress
  pub parse_uint : String → Outcome String ℕ
  pub parse_signature : String → Outcome String EthSignature

pub record Erc20Token : Type 0 where
  pub amount : ℕ
  pub token_contract_address : EthAddress

pub record BatchTransaction : Type 0 where
  pub id : ℕ
  pub sender : CosmosAddress
  pub destination : EthAddress
  pub erc20_token : Erc20Token
  pub erc20_fee : Erc20Token

pub record TransactionBatch : Type 0 where
  pub nonce : ℕ
  pub transactions : List BatchTransaction
  pub total_fee : Erc20Token
  pub token_contract : EthAddress

-- `Option::is_some`
abbrev is_some : {A : Type 0} → Option A → Bool
is_some none = false
is_some (some a) = true

module _ (num : Num256) (eth : Clarity) (parsers : Parsers) where
  -- `ERC20Token::from_proto`
  unfoldable pub erc20_token_from_proto : Erc20TokenProto → Outcome PeggyError Erc20Token
  erc20_token_from_proto input = do
    amount ← map_err PeggyError.invalid_big_int (parsers.parse_uint input.amount)
    contract ← map_err PeggyError.clarity_error (eth.parse_address input.contract)
    ok (record { amount = amount; token_contract_address = contract })

  -- `BatchTransaction::from_proto`
  unfoldable pub batch_transaction_from_proto :
      OutgoingTransferTxProto → Outcome PeggyError BatchTransaction
  batch_transaction_from_proto input = do
    guard (is_some input.erc20_fee && is_some input.erc20_token)
        (PeggyError.invalid_bridge_state_error "Can not have tx with null erc20_token!")
    sender ← map_err PeggyError.cosmos_address_error (parsers.parse_cosmos_address input.sender)
    destination ← map_err PeggyError.clarity_error (eth.parse_address input.dest_address)
    token_proto ← unwrap input.erc20_token
    token ← erc20_token_from_proto token_proto
    fee_proto ← unwrap input.erc20_fee
    fee ← erc20_token_from_proto fee_proto
    ok (record {
      id = input.id;
      sender = sender;
      destination = destination;
      erc20_token = token;
      erc20_fee = fee;
    })

  -- `running_total_fee`, with the fee of one more transaction.
  unfoldable pub add_fee : Option Erc20Token → Erc20Token → Outcome PeggyError Erc20Token
  add_fee none fee = ok fee
  add_fee (some total_fee) fee = unwrap (num.add total_fee.amount fee.amount) >>= λ amount.
      ok (record { amount = amount; token_contract_address = total_fee.token_contract_address })

  -- The loop of `TransactionBatch::from_proto`.
  unfoldable pub read_transactions :
      Option Erc20Token
      → List OutgoingTransferTxProto
      → Outcome PeggyError (List BatchTransaction × Option Erc20Token)
  read_transactions running_total_fee [] = ok ([], running_total_fee)
  read_transactions running_total_fee (input ∷ rest) = batch_transaction_from_proto input >>= λ tx.
      add_fee running_total_fee tx.erc20_fee >>= λ total.
      read_transactions (some total) rest >>= λ (transactions, fees). ok (tx ∷ transactions, fees)

  -- `TransactionBatch::from_proto`
  unfoldable pub transaction_batch_from_proto :
      OutgoingTxBatchProto → Outcome PeggyError TransactionBatch
  transaction_batch_from_proto input = do
    (transactions, running_total_fee) ← read_transactions none input.transactions
    total_fee ←
        ok_or running_total_fee
          (PeggyError.invalid_bridge_state_error "Transaction batch containing no transactions!")
    ok (record {
      nonce = input.batch_nonce;
      transactions = transactions;
      total_fee = total_fee;
      token_contract = total_fee.token_contract_address;
    })

-- The loop of `get_checkpoint_values`.
unfoldable pub amounts_and_destinations : List BatchTransaction → List ℕ × List EthAddress
amounts_and_destinations [] = ([], [])
amounts_and_destinations (item ∷ rest) =
    let (amounts, destinations) = amounts_and_destinations rest in
    (item.erc20_token.amount ∷ amounts, item.destination ∷ destinations)

-- `TransactionBatch::get_checkpoint_values`
unfoldable pub get_checkpoint_values : {E : Type 0} → TransactionBatch → Outcome E (Token × Token)
get_checkpoint_values self =
    let (amounts, destinations) = amounts_and_destinations self.transactions in
    assert (length amounts == length destinations)
    >> ok (Token.dynamic_uint amounts, Token.dynamic_address destinations)

unfoldable pub encode_tx_batch_confirm :
    {E : Type 0} → (List Token → Bytes) → String → TransactionBatch → Outcome E Bytes
encode_tx_batch_confirm encode_tokens peggy_id batch =
    get_checkpoint_values batch >>= λ (amounts, destinations). ok (
      encode_tokens (
        Token.fixed_string peggy_id
        ∷ Token.fixed_string "transactionBatch"
        ∷ amounts
        ∷ destinations
        ∷ Token.uint batch.nonce
        ∷ Token.address batch.token_contract
        ∷ []))
