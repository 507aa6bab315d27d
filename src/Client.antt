-- ===== src/Client.antt =====
-- The command line programs orchestrator/client/src/main.rs and
-- orchestrator/register_delegate_keys/src/main.rs, from their parsed arguments on.
pub mod Locking
mod Tests
use Prim.Native.String.{String, ◌++◌ as text_append}
use minter_hub.Batches.{Parsers}
use minter_hub.Bytes.{Bytes}
use minter_hub.Claims.{Coin}
use minter_hub.Crates.{Clarity, Num256}
use minter_hub.Deposit.{send_to_cosmos}
use minter_hub.Error.{PeggyError}
use minter_hub.Ethereum.{Token}
use minter_hub.Io.{Io, World, expect, pure, ◌>>=◌, ◌>>◌}
use minter_hub.Oracle.{Oracle}
use minter_hub.Outcome.{Outcome, ok, unwrap_result}
use minter_hub.Prelude.{Bool, List, Option, [], if◌then◌else◌, none, some, true, ℕ}
use minter_hub.Send.{send_request_batch, send_to_eth, update_peggy_delegate_addresses}
use minter_hub.Submit.{EthPrivateKey}
use minter_hub.Valset.{CosmosAddress, EthAddress}

-- `deep_space::private_key::PrivateKey`: its address, the address with the prefix of a validator, and
-- its account at the node with a url.
pub record CosmosKey : Type 0 where
  pub key_address : Outcome String CosmosAddress
  pub valoper_address : Outcome String String
  pub account_at : String → Oracle

-- The crates that the programs use.
pub record Tools : Type 0 where
  pub num : Num256
  pub eth : Clarity
  pub parsers : Parsers
  pub encode_call : String → List Token → Outcome String Bytes
  pub from_phrase : String → Outcome String CosmosKey
  pub parse_eth_key : String → Outcome String EthPrivateKey
  -- `Url::parse(..)` and the text of the url, without slashes at its end.
  pub parse_url : String → Outcome String String
  pub web_at : String → World

-- `Args` of the client.
pub record Args : Type 0 where
  pub flag_cosmos_phrase : String
  pub flag_ethereum_key : String
  pub flag_cosmos_rpc : String
  pub flag_ethereum_rpc : String
  pub flag_contract_address : String
  pub flag_fees : String
  pub flag_amount : String
  pub flag_cosmos_destination : String
  pub flag_erc20_address : String
  pub flag_eth_destination : String
  pub cmd_eth_to_cosmos : Bool
  pub cmd_cosmos_to_eth : Bool

-- The fee of one unit.
abbrev pub one_unit : String → Coin
one_unit denom = record { denom = denom; amount = 1 }

module _ (t : Tools) where
  -- `format!("peggy/{}", erc20_address)`
  unfoldable pub peggy_denom : EthAddress → String
  peggy_denom erc20_address = text_append "peggy/" (t.eth.address_to_string erc20_address)

  -- The branch of `cosmos-to-eth`.
  unfoldable pub cosmos_to_eth : Args → ℕ → EthAddress → Io (Unit {0})
  cosmos_to_eth args amount erc20_address = do
    cosmos_key ← pure (unwrap_result (t.from_phrase args.flag_cosmos_phrase))
    cosmos_url ← pure (unwrap_result (t.parse_url args.flag_cosmos_rpc))
    eth_dest ← pure (unwrap_result (t.eth.parse_address args.flag_eth_destination))
    expect (
        send_to_eth (cosmos_key.account_at cosmos_url) eth_dest
          (record { denom = peggy_denom erc20_address; amount = amount }) (one_unit args.flag_fees))
    expect (
        send_request_batch (cosmos_key.account_at cosmos_url) (peggy_denom erc20_address)
          (one_unit args.flag_fees))

  -- The branch of `eth-to-cosmos`.
  unfoldable pub eth_to_cosmos : Args → ℕ → EthAddress → Io (Unit {0})
  eth_to_cosmos args amount erc20_address = do
    ethereum_key ← pure (unwrap_result (t.parse_eth_key args.flag_ethereum_key))
    contract_address ← pure (unwrap_result (t.eth.parse_address args.flag_contract_address))
    eth_url ← pure (unwrap_result (t.parse_url args.flag_ethereum_rpc))
    cosmos_dest ← pure (unwrap_result (t.parsers.parse_cosmos_address args.flag_cosmos_destination))
    ethereum_public_key ← pure (unwrap_result ethereum_key.to_public_key)
    tx_id ← expect (
        send_to_cosmos (record {
          num = t.num;
          encode_call = t.encode_call;
          web = t.web_at eth_url;
          erc20 = erc20_address;
          peggy_contract = contract_address;
          amount = amount;
          cosmos_destination = cosmos_dest;
          sender_secret = ethereum_key;
          waits = true;
          options = [];
        }))
    pure (ok tt)

  unfoldable pub run_command : Args → ℕ → EthAddress → Io (Unit {0})
  run_command args amount erc20_address =
      if args.cmd_cosmos_to_eth
      then cosmos_to_eth args amount erc20_address
      else if args.cmd_eth_to_cosmos
      then eth_to_cosmos args amount erc20_address
      else pure (ok tt)

  -- `main` of the client.
  unfoldable pub client_main : Args → Io (Unit {0})
  client_main args = do
    amount ← pure (unwrap_result (t.parsers.parse_uint args.flag_amount))
    erc20_address ← pure (unwrap_result (t.eth.parse_address args.flag_erc20_address))
    run_command args amount erc20_address

-- `Args` of the registration, and the keys that it generates when none are given.
pub record RegisterArgs : Type 0 where
  pub flag_validator_phrase : String
  pub flag_cosmos_phrase : Option String
  pub flag_ethereum_key : Option String
  pub flag_cosmos_rpc : String
  pub flag_fees : String
  pub generated_cosmos_key : CosmosKey
  pub generated_ethereum_key : Outcome String EthPrivateKey

module _ (t : Tools) where
  unfoldable pub chosen_cosmos_key : CosmosKey → Option String → Outcome PeggyError CosmosKey
  chosen_cosmos_key generated (some phrase) = unwrap_result (t.from_phrase phrase)
  chosen_cosmos_key generated none = ok generated

  unfoldable pub chosen_ethereum_key :
      Outcome String EthPrivateKey → Option String → Outcome PeggyError EthPrivateKey
  chosen_ethereum_key generated (some key) = unwrap_result (t.parse_eth_key key)
  chosen_ethereum_key generated none = unwrap_result generated

  -- `main` of the registration.
  unfoldable pub register_main : RegisterArgs → Io (Unit {0})
  register_main args = do
    validator_key ← pure (unwrap_result (t.from_phrase args.flag_validator_phrase))
    cosmos_key ← pure (chosen_cosmos_key args.generated_cosmos_key args.flag_cosmos_phrase)
    ethereum_key ← pure (chosen_ethereum_key args.generated_ethereum_key args.flag_ethereum_key)
    cosmos_url ← pure (unwrap_result (t.parse_url args.flag_cosmos_rpc))
    ethereum_address ← pure (unwrap_result ethereum_key.to_public_key)
    cosmos_address ← pure (unwrap_result cosmos_key.key_address)
    expect (
        update_peggy_delegate_addresses (validator_key.account_at cosmos_url)
          validator_key.valoper_address ethereum_address cosmos_address (one_unit args.flag_fees))
