-- ===== src/Send/Confirming.antt =====
-- What the confirmations of the signer say when a relayer reads them from the chain.
use Prim.Native.String.{String}
use minter_hub.Batches.{TransactionBatch}
use minter_hub.Bytes.{Bytes}
use minter_hub.Claims.{ConfirmBatchMsg, ValsetConfirmMsg}
use minter_hub.Ethereum.{encode_valset_confirm}
use minter_hub.Io.{MsgConfirmBatchProto, MsgValsetConfirmProto}
use minter_hub.Outcome.{ok}
use minter_hub.Prelude.{refl, ◌≡◌}
use minter_hub.Queries.{batch_confirm_from_proto, valset_confirm_from_proto}
use minter_hub.Send.{Orchestrator, confirm_of_batch, confirm_of_valset}
use minter_hub.Valset.{CosmosAddress, EthAddress, EthSignature, Valset}

-- How the chain stores a confirmation of a validator set and of a batch: the fields of the message,
-- each as its text.
unfoldable pub stored_valset_confirm :
    (CosmosAddress → String) → (EthAddress → String) → ValsetConfirmMsg → MsgValsetConfirmProto
stored_valset_confirm cosmos_text eth_text msg = record {
  orchestrator = cosmos_text msg.orchestrator;
  eth_address = eth_text msg.eth_address;
  nonce = msg.nonce;
  signature = msg.eth_signature;
}

unfoldable pub stored_batch_confirm :
    (CosmosAddress → String) → (EthAddress → String) → ConfirmBatchMsg → MsgConfirmBatchProto
stored_batch_confirm cosmos_text eth_text msg = record {
  nonce = msg.nonce;
  orchestrator = cosmos_text msg.orchestrator;
  token_contract = eth_text msg.token_contract;
  eth_signer = eth_text msg.eth_signer;
  signature = msg.eth_signature;
}

-- The texts of the crates are read back by their parsers.
pub record ReadsBack (s : Orchestrator) (to_text : CosmosAddress → String) : Type 0 where
  pub cosmos_text : (a : CosmosAddress) → s.parsers.parse_cosmos_address (to_text a) ≡ ok a
  pub eth_text :
      (a : EthAddress) → s.oracle.eth.parse_address (s.oracle.eth.address_to_string a) ≡ ok a
  pub signature_text :
      (sig : EthSignature) → s.parsers.parse_signature (s.signature_to_hex sig) ≡ ok sig

module _ (s : Orchestrator) (to_text : CosmosAddress → String) (texts : ReadsBack s to_text)
    (us : CosmosAddress) (eth : EthAddress) (peggy_id : String) where
  -- A confirmation of a validator set, stored by the chain and read by a relayer, is a confirmation by
  -- our two addresses with the nonce of the set, and its signature is our key's over the encoding of
  -- the checkpoint of the set.
  pub valset_confirm_from_proto-confirm_of_valset :
      (valset : Valset)
      → valset_confirm_from_proto s.oracle.num s.oracle.eth s.parsers (
          stored_valset_confirm to_text s.oracle.eth.address_to_string
            (confirm_of_valset s us eth peggy_id valset))
        ≡ ok (record {
          orchestrator = us;
          eth_address = eth;
          nonce = valset.nonce;
          eth_signature =
              s.sign_ethereum_msg (encode_valset_confirm s.encode_tokens peggy_id valset);
        })
  unfolding stored_valset_confirm confirm_of_valset valset_confirm_from_proto
  valset_confirm_from_proto-confirm_of_valset valset =
      rw (texts.cosmos_text us, texts.eth_text eth, texts.signature_text) refl

  -- The same of a batch: the confirmation that a relayer reads has our two addresses, the nonce and
  -- the token of the batch, and our key's signature over the encoding of the batch.
  batch_confirm_from_proto-confirm_of_batch :
      (batch : TransactionBatch) (checkpoint : Bytes)
      → batch_confirm_from_proto s.oracle.num s.oracle.eth s.parsers (
          stored_batch_confirm to_text s.oracle.eth.address_to_string
            (confirm_of_batch s us eth batch checkpoint))
        ≡ ok (record {
          nonce = batch.nonce;
          orchestrator = us;
          token_contract = batch.token_contract;
          ethereum_signer = eth;
          eth_signature = s.sign_ethereum_msg checkpoint;
        })
  unfolding stored_batch_confirm confirm_of_batch batch_confirm_from_proto
  batch_confirm_from_proto-confirm_of_batch batch checkpoint =
      rw
        (
          texts.cosmos_text us,
          texts.eth_text batch.token_contract,
          texts.eth_text eth,
          texts.signature_text,
        )
        refl
