-- ===== src/Ethereum/Payloads.antt =====
-- The calls of the contract that orchestrator/ethereum_peggy/src/valset_update.rs and submit_batch.rs
-- encode. `encode_call` of clarity is an argument.
use Prim.Native.String.{String}
use minter_hub.Batches.{TransactionBatch, get_checkpoint_values}
use minter_hub.Bytes.{Bytes}
use minter_hub.Crates.{Num256}
use minter_hub.Error.{PeggyError}
use minter_hub.Ethereum.{Token, to_arrays}
use minter_hub.Outcome.{Outcome, unwrap_result, ◌>>=◌}
use minter_hub.Prelude.{List, [], ◌∷◌}
use minter_hub.Valset.{BatchConfirmResponse, Valset, ValsetConfirmResponse, filter_empty_addresses}
use minter_hub.Valset.Signing.{order_batch_sigs, order_valset_sigs}

module _ (num : Num256) (encode_call : String → List Token → Outcome String Bytes) where
  -- The call of `updateValset`.
  unfoldable pub valset_payload :
      Valset → Valset → List ValsetConfirmResponse → Outcome PeggyError Bytes
  valset_payload new_valset old_valset confirms =
      let (old_addresses, old_powers) = filter_empty_addresses old_valset.members in
      let (new_addresses, new_powers) = filter_empty_addresses new_valset.members in
      order_valset_sigs old_valset confirms >>= λ sig_data. to_arrays num sig_data >>= λ sig_arrays.
      unwrap_result (
        encode_call
          "updateValset(address[],uint256[],uint256,address[],uint256[],uint256,uint8[],bytes32[],bytes32[])"
          (Token.dynamic_address new_addresses
            ∷ Token.dynamic_uint new_powers
            ∷ Token.uint new_valset.nonce
            ∷ Token.dynamic_address old_addresses
            ∷ Token.dynamic_uint old_powers
            ∷ Token.uint old_valset.nonce
            ∷ sig_arrays.v
            ∷ sig_arrays.r
            ∷ sig_arrays.s
            ∷ []))

  -- The call of `submitBatch`.
  unfoldable pub batch_payload :
      Valset → TransactionBatch → List BatchConfirmResponse → Outcome PeggyError Bytes
  batch_payload current_valset batch confirms =
      let (current_addresses, current_powers) = filter_empty_addresses current_valset.members in
      order_batch_sigs current_valset confirms >>= λ sig_data.
      to_arrays num sig_data >>= λ sig_arrays.
      get_checkpoint_values batch >>= λ (amounts, destinations). unwrap_result (
        encode_call
          "submitBatch(address[],uint256[],uint256,uint8[],bytes32[],bytes32[],uint256[],address[],uint256,address)"
          (Token.dynamic_address current_addresses
            ∷ Token.dynamic_uint current_powers
            ∷ Token.uint current_valset.nonce
            ∷ sig_arrays.v
            ∷ sig_arrays.r
            ∷ sig_arrays.s
            ∷ amounts
            ∷ destinations
            ∷ Token.uint batch.nonce
            ∷ Token.address batch.token_contract
            ∷ []))
