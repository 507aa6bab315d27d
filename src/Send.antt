-- ===== src/Send.antt =====
-- orchestrator/cosmos_peggy/src/send.rs: the messages that are sent to the Cosmos chain one at a
-- time. The claims of the oracle are sent in Oracle. A `JsonRpcError` is kept as the error of the
-- program that it is converted to.
pub mod Confirming
pub mod Broadcasting
pub mod Examples
mod Tests
use Prim.Native.String.{String}
use minter_hub.Batches.{OutgoingTxBatchProto, Parsers, TransactionBatch, encode_tx_batch_confirm}
use minter_hub.Bytes.{Bytes}
use minter_hub.Claims.{Coin, ConfirmBatchMsg, PeggyMsg, ValsetConfirmMsg}
use minter_hub.Error.{PeggyError}
use minter_hub.Ethereum.{Token, encode_valset_confirm}
use minter_hub.Io.{History, Io, Request, ValsetProto, perform, pure, ◌>>=◌, ◌>>◌}
use minter_hub.Oracle.{Oracle, get_tx_info}
use minter_hub.Outcome.{Outcome, unwrap_result}
use minter_hub.Prelude.{List, Option, [], ℕ, ◌∷◌}
use minter_hub.SignMsg.{StdSignMsg}
use minter_hub.Valset.{CosmosAddress, EthAddress, EthSignature, Valset}

-- `StdSignMsg` with one message.
unfoldable pub single_msg : Coin → String × ℕ × ℕ → PeggyMsg → StdSignMsg
single_msg fee (chain_id, account_number, sequence) msg = record {
  chain_id = chain_id;
  account_number = account_number;
  sequence = sequence;
  fee = record { amount = fee ∷ []; gas = 500000 };
  msgs = msg ∷ [];
  memo = "";
}

module _ (o : Oracle) where
  -- `sign_std_msg(..).unwrap()`, and `retry_on_block`.
  unfoldable pub sign_and_send : StdSignMsg → Io (Unit {0})
  sign_and_send std_sign_msg = do
    tx ← pure (unwrap_result (o.sign_std_msg std_sign_msg))
    perform (Request.broadcast std_sign_msg) PeggyError.cosmos_rest_error
        (λ h. o.retry_on_block h tx)

  -- `our_valoper_address` is the text of our address with the prefix of a validator.
  unfoldable pub update_peggy_delegate_addresses :
      Outcome String String → EthAddress → CosmosAddress → Coin → Io (Unit {0})
  update_peggy_delegate_addresses valoper delegate_eth_address delegate_cosmos_address fee = do
    our_valoper_address ← pure (unwrap_result valoper)
    our_address ← pure (unwrap_result o.our_address)
    tx_info ← get_tx_info o our_address
    sign_and_send (
        single_msg fee tx_info (
          PeggyMsg.set_orchestrator_address_msg (record {
            eth_address = delegate_eth_address;
            validator = our_valoper_address;
            orchestrator = delegate_cosmos_address;
          })))

  unfoldable pub send_to_eth : EthAddress → Coin → Coin → Io (Unit {0})
  send_to_eth destination amount fee = do
    our_address ← pure (unwrap_result o.our_address)
    tx_info ← get_tx_info o our_address
    sign_and_send (
        single_msg fee tx_info (
          PeggyMsg.send_to_eth_msg (record {
            sender = our_address;
            eth_dest = destination;
            amount = amount;
            bridge_fee = fee;
          })))

  unfoldable pub send_request_batch : String → Coin → Io (Unit {0})
  send_request_batch denom fee = do
    our_address ← pure (unwrap_result o.our_address)
    tx_info ← get_tx_info o our_address
    sign_and_send (
        single_msg fee tx_info
          (PeggyMsg.request_batch_msg (record { orchestrator = our_address; denom = denom })))

-- What an orchestrator has beside its oracle: its Ethereum key, with the encodings of clarity, the
-- parsers, and the node's answers to its queries.
pub record Orchestrator : Type 0 where
  pub oracle : Oracle
  pub parsers : Parsers
  pub eth_public_key : Outcome String EthAddress
  pub sign_ethereum_msg : Bytes → EthSignature
  -- `bytes_to_hex_str(&signature.to_bytes())`
  pub signature_to_hex : EthSignature → String
  pub encode_tokens : List Token → Bytes
  pub encode_call : String → List Token → Outcome String Bytes
  pub from_utf8 : Bytes → Outcome String String
  pub query_pending_valset : History → CosmosAddress → Outcome String (Option ValsetProto)
  pub query_pending_batch : History → CosmosAddress → Outcome String (Option OutgoingTxBatchProto)
  pub query_latest_block_number : History → Outcome String ℕ

module _ (s : Orchestrator) where
  -- The confirmation of a validator set, signed.
  unfoldable pub confirm_of_valset : CosmosAddress → EthAddress → String → Valset → ValsetConfirmMsg
  confirm_of_valset our_address our_eth_address peggy_id valset = record {
    orchestrator = our_address;
    eth_address = our_eth_address;
    nonce = valset.nonce;
    eth_signature =
        s.signature_to_hex
          (s.sign_ethereum_msg (encode_valset_confirm s.encode_tokens peggy_id valset));
  }

  unfoldable pub send_valset_confirm : Valset → String → Io (Unit {0})
  send_valset_confirm valset peggy_id = do
    our_address ← pure (unwrap_result s.oracle.our_address)
    our_eth_address ← pure (unwrap_result s.eth_public_key)
    tx_info ← get_tx_info s.oracle our_address
    sign_and_send s.oracle (
        single_msg s.oracle.fee tx_info (
          PeggyMsg.valset_confirm_msg
            (confirm_of_valset our_address our_eth_address peggy_id valset)))

  -- The confirmation of a batch, with what is signed for it.
  unfoldable pub confirm_of_batch :
      CosmosAddress → EthAddress → TransactionBatch → Bytes → ConfirmBatchMsg
  confirm_of_batch our_address our_eth_address transaction_batch batch_checkpoint = record {
    nonce = transaction_batch.nonce;
    orchestrator = our_address;
    token_contract = transaction_batch.token_contract;
    eth_signer = our_eth_address;
    eth_signature = s.signature_to_hex (s.sign_ethereum_msg batch_checkpoint);
  }

  unfoldable pub send_batch_confirm : TransactionBatch → String → Io (Unit {0})
  send_batch_confirm transaction_batch peggy_id = do
    our_address ← pure (unwrap_result s.oracle.our_address)
    our_eth_address ← pure (unwrap_result s.eth_public_key)
    tx_info ← get_tx_info s.oracle our_address
    batch_checkpoint ← pure (encode_tx_batch_confirm s.encode_tokens peggy_id transaction_batch)
    sign_and_send s.oracle (
        single_msg s.oracle.fee tx_info (
          PeggyMsg.confirm_batch_msg
            (confirm_of_batch our_address our_eth_address transaction_batch batch_checkpoint)))
