-- ===== src/Client/Tests.antt =====
-- The client at concrete tools, whose texts all parse.
use Prim.Native.String.{String}
use minter_hub.Claims.{PeggyMsg}
use minter_hub.Client.{
  Args, RegisterArgs, Tools, chosen_cosmos_key, chosen_ethereum_key, one_unit, register_main,
}
use minter_hub.Crates.Examples.{plain_eth, plain_num, plain_parsers}
use minter_hub.Io.{continue, expect, perform, pure, ◌>>=◌}
use minter_hub.Io.Broadcasting.{broadcasts}
use minter_hub.Oracle.{get_tx_info}
use minter_hub.Oracle.Examples.{oracle_at, watched_node}
use minter_hub.Outcome.{err, ok}
use minter_hub.Prelude.{[], false, none, refl, replicate, some, true, ◌∷◌, ◌≡◌}
use minter_hub.Send.{sign_and_send, single_msg, update_peggy_delegate_addresses}

abbrev tools : Tools
tools = record {
  num = plain_num;
  eth = plain_eth;
  parsers = plain_parsers;
  encode_call = λ signature tokens. ok [];
  from_phrase = λ phrase. ok (record {
    key_address = ok (replicate 20 2);
    valoper_address = ok "cosmosvaloper";
    account_at = λ url. oracle_at 0;
  });
  parse_eth_key = λ text. ok (record {
    to_public_key = ok 42;
    signed_bytes = λ nonce price receiver payload network. ok [];
  });
  parse_url = λ text. ok text;
  web_at = λ url. watched_node 0;
}

abbrev lock_args : Args
lock_args = record {
  flag_cosmos_phrase = "one two";
  flag_ethereum_key = "";
  flag_cosmos_rpc = "http://hub";
  flag_ethereum_rpc = "";
  flag_contract_address = "";
  flag_fees = "hub";
  flag_amount = "40";
  flag_cosmos_destination = "";
  flag_erc20_address = "0x05";
  flag_eth_destination = "0x05";
  cmd_eth_to_cosmos = false;
  cmd_cosmos_to_eth = true;
}

abbrev register_args : RegisterArgs
register_args = record {
  flag_validator_phrase = "one two";
  flag_cosmos_phrase = none;
  flag_ethereum_key = some "0x07";
  flag_cosmos_rpc = "http://hub";
  flag_fees = "hub";
  generated_cosmos_key = record {
    key_address = ok (replicate 20 3);
    valoper_address = ok "";
    account_at = λ url. oracle_at 0;
  };
  generated_ethereum_key = err "no key";
}

-- The generated key is registered where none is given, and the given one otherwise.
registered :
    broadcasts ((register_main tools register_args []).1)
    ≡ single_msg
        (one_unit "hub")
        ("mhub", 4, 8)
        (PeggyMsg.set_orchestrator_address_msg
          (record { eth_address = 42; validator = "cosmosvaloper"; orchestrator = replicate 20 3 }))
      ∷ []
unfolding register_main chosen_cosmos_key chosen_ethereum_key expect update_peggy_delegate_addresses
    sign_and_send get_tx_info ◌>>=◌ continue pure perform broadcasts
registered = refl
