-- ===== src/Error.antt =====
-- `PeggyError` of orchestrator/peggy_utils/src/error.rs. An error of another crate is represented by
-- the text that it displays. The message of a vote that falls short carries its figures instead of
-- the text that is formatted from them.
use Prim.Native.String.{String}
use minter_hub.Prelude.{ℕ, Option}

-- The figures of the message of `order_valset_sigs` and `order_batch_sigs`. `token` is that of the
-- batch, and is absent from the message about a validator set.
pub record VotingReport : Type 0 where
  pub nonce : ℕ
  pub token : Option ℕ
  pub power_of_good_sigs : ℕ
  pub number_of_unset_key_validators : ℕ
  pub num_validators : ℕ
  pub power_of_unset_keys : ℕ
  pub number_of_nonvoters : ℕ
  pub power_of_nonvoters : ℕ

pub data VotingMessage : Type 0 where
  no_signatures : VotingMessage
  can_not_execute : VotingReport → VotingMessage

pub data PeggyError : Type 0 where
  invalid_big_int : String → PeggyError
  cosmos_rest_error : String → PeggyError
  cosmos_address_error : String → PeggyError
  ethereum_rest_error : String → PeggyError
  invalid_bridge_state_error : String → PeggyError
  failed_to_update_valset : PeggyError
  ethereum_contract_error : String → PeggyError
  invalid_options_error : String → PeggyError
  clarity_error : String → PeggyError
  timeout_error : PeggyError
  invalid_event_log_error : String → PeggyError
  cosmos_grpc_error : String → PeggyError
  insufficient_voting_power_to_pass : VotingMessage → PeggyError
