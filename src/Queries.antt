-- ===== src/Queries.antt =====
-- orchestrator/cosmos_peggy/src/query.rs, and the conversions from the messages of the Cosmos chain in
-- orchestrator/peggy_utils/src/types/valsets.rs.
pub mod Laws
use Prim.Native.String.{String}
use minter_hub.Batches.{
  OutgoingTxBatchProto, Parsers, TransactionBatch, transaction_batch_from_proto,
}
use minter_hub.Crates.{Clarity, Num256}
use minter_hub.Error.{PeggyError}
use minter_hub.Io.{
  BridgeValidatorProto, History, Io, MsgConfirmBatchProto, MsgValsetConfirmProto, Request,
  ValsetProto, World, perform, pure, ◌>>=◌, ◌>>◌,
}
use minter_hub.Outcome.{Outcome, bind_outcome, err, map_err, ok, panic, traverse}
use minter_hub.Prelude.{List, Option, none, some, ℕ}
use minter_hub.Valset.{
  BatchConfirmResponse, EthAddress, Valset, ValsetConfirmResponse, ValsetMember,
}

module _ (num : Num256) (eth : Clarity) (parsers : Parsers) where
  -- `From<BridgeValidator> for ValsetMember`: an address that does not parse is no address.
  unfoldable pub member_of_result :
      {E : Type 0} → ℕ → Outcome String EthAddress → Outcome E ValsetMember
  member_of_result power (ok parsed) = ok (record { power = power; eth_address = some parsed })
  member_of_result power (err e) = ok (record { power = power; eth_address = none })
  member_of_result power panic = panic

  unfoldable pub member_from_proto : BridgeValidatorProto → Outcome PeggyError ValsetMember
  member_from_proto input = member_of_result input.power (eth.parse_address input.ethereum_address)

  -- `From<Valset>`
  unfoldable pub valset_from_proto : ValsetProto → Outcome PeggyError Valset
  valset_from_proto input =
      bind_outcome (traverse member_from_proto input.members)
        λ members. ok (record { nonce = input.nonce; members = members })

  -- `ValsetConfirmResponse::from_proto`
  unfoldable pub valset_confirm_from_proto :
      MsgValsetConfirmProto → Outcome PeggyError ValsetConfirmResponse
  valset_confirm_from_proto input =
      bind_outcome
        (map_err PeggyError.cosmos_address_error (parsers.parse_cosmos_address input.orchestrator))
        λ orchestrator.
          bind_outcome (map_err PeggyError.clarity_error (eth.parse_address input.eth_address))
            λ eth_address.
              bind_outcome
                (map_err PeggyError.clarity_error (parsers.parse_signature input.signature))
                λ signature. ok (record {
                  orchestrator = orchestrator;
                  eth_address = eth_address;
                  nonce = input.nonce;
                  eth_signature = signature;
                })

  -- `BatchConfirmResponse::from_proto`
  unfoldable pub batch_confirm_from_proto :
      MsgConfirmBatchProto → Outcome PeggyError BatchConfirmResponse
  batch_confirm_from_proto input =
      bind_outcome
        (map_err PeggyError.cosmos_address_error (parsers.parse_cosmos_address input.orchestrator))
        λ orchestrator.
          bind_outcome (map_err PeggyError.clarity_error (eth.parse_address input.token_contract))
            λ token_contract.
              bind_outcome (map_err PeggyError.clarity_error (eth.parse_address input.eth_signer))
                λ ethereum_signer.
                  bind_outcome
                    (map_err PeggyError.clarity_error (parsers.parse_signature input.signature))
                    λ signature. ok (record {
                      nonce = input.nonce;
                      orchestrator = orchestrator;
                      token_contract = token_contract;
                      ethereum_signer = ethereum_signer;
                      eth_signature = signature;
                    })

  -- The conversion of an answer that may hold no set, or no batch.
  unfoldable pub convert_valset : Option ValsetProto → Outcome PeggyError (Option Valset)
  convert_valset none = ok none
  convert_valset (some v) = bind_outcome (valset_from_proto v) λ valset. ok (some valset)

  unfoldable pub convert_batch :
      Option OutgoingTxBatchProto → Outcome PeggyError (Option TransactionBatch)
  convert_batch none = ok none
  convert_batch (some b) =
      bind_outcome (transaction_batch_from_proto num eth parsers b) λ batch. ok (some batch)

  -- A missing set is an error of the bridge.
  unfoldable pub required_valset : Option ValsetProto → Outcome PeggyError Valset
  required_valset (some v) = valset_from_proto v
  required_valset none = err (PeggyError.invalid_bridge_state_error "Must have a current valset!")

  unfoldable pub get_current_valset : (History → Outcome String (Option ValsetProto)) → Io Valset
  get_current_valset current_valset = do
    valset ← perform Request.current_valset_request PeggyError.cosmos_grpc_error current_valset
    pure (required_valset valset)

  module _ (world : World) where
    unfoldable pub get_valset : ℕ → Io (Option Valset)
    get_valset nonce = do
      valset ←
          perform (Request.valset_request nonce) PeggyError.cosmos_grpc_error
            (λ h. world.query_valset h nonce)
      pure (convert_valset valset)

    unfoldable pub get_latest_valsets : Io (List Valset)
    get_latest_valsets = do
      valsets ←
          perform Request.last_valset_requests PeggyError.cosmos_grpc_error world.query_last_valsets
      pure (traverse valset_from_proto valsets)

    unfoldable pub get_all_valset_confirms : ℕ → Io (List ValsetConfirmResponse)
    get_all_valset_confirms nonce = do
      confirms ←
          perform (Request.valset_confirms nonce) PeggyError.cosmos_grpc_error
            (λ h. world.query_valset_confirms h nonce)
      pure (traverse valset_confirm_from_proto confirms)

    unfoldable pub get_latest_transaction_batches : Io (List TransactionBatch)
    get_latest_transaction_batches = do
      batches ← perform Request.outgoing_tx_batches PeggyError.cosmos_grpc_error world.query_batches
      pure (traverse (transaction_batch_from_proto num eth parsers) batches)

    unfoldable pub get_transaction_batch_signatures :
        ℕ → EthAddress → Io (List BatchConfirmResponse)
    get_transaction_batch_signatures nonce contract_address = do
      let contract = eth.address_to_string contract_address
      confirms ←
          perform (Request.batch_confirms nonce contract) PeggyError.cosmos_grpc_error
            (λ h. world.query_batch_confirms h nonce contract)
      pure (traverse batch_confirm_from_proto confirms)
