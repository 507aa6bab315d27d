-- ===== src/Relayer/Examples.antt =====
-- The relayer at a concrete world: a contract with the validator set 4 and the batch 8, and a Cosmos
-- chain with the confirmed set 5 and the signed batch 9.
use Prim.Native.String.{String}
use minter_hub.Abi.{word}
use minter_hub.Batches.{Erc20Token, Erc20TokenProto, TransactionBatch}
use minter_hub.Bytes.{Bytes, be_value, concat}
use minter_hub.Crates.Examples.{plain_eth, plain_num, plain_parsers}
use minter_hub.Ethereum.{Token}
use minter_hub.Events.{Log}
use minter_hub.Events.ValsetUpdated.Parsing.{valset_words}
use minter_hub.Io.{ValsetProto, World}
use minter_hub.Outcome.{Outcome, ok}
use minter_hub.Prelude.{
  List, [], if◌then◌else◌, length, none, replicate, some, true, ℕ, ◌+◌, ◌==◌, ◌∷◌,
}
use minter_hub.Relayer.{Relayer}
use minter_hub.Submit.{EthPrivateKey}
use minter_hub.Valset.{BatchConfirmResponse, Valset, ValsetConfirmResponse}

abbrev pub set_of : ℕ → Valset
set_of n = record { nonce = n; members = record { power = 3000000000; eth_address = some 5 } ∷ [] }

abbrev pub new_set : Valset
new_set = record { nonce = 5; members = record { power = 4000000000; eth_address = some 5 } ∷ [] }

abbrev pub confirm_5 : ValsetConfirmResponse
confirm_5 = record {
  orchestrator = replicate 20 1;
  eth_address = 5;
  nonce = 5;
  eth_signature = record { v = 27; r = 11; s = 12 };
}

abbrev pub batch_confirm_9 : BatchConfirmResponse
batch_confirm_9 = record {
  nonce = 9;
  orchestrator = replicate 20 1;
  token_contract = 5;
  ethereum_signer = 5;
  eth_signature = record { v = 27; r = 11; s = 12 };
}

abbrev pub forty : Erc20Token
forty = record { amount = 40; token_contract_address = 5 }

abbrev pub batch_9 : TransactionBatch
batch_9 = record {
  nonce = 9;
  transactions =
      record {
        id = 1;
        sender = replicate 20 1;
        destination = 5;
        erc20_token = forty;
        erc20_fee = forty;
      }
      ∷ [];
  total_fee = forty;
  token_contract = 5;
}

-- The number of tokens stands for the encoded call.
abbrev pub count_tokens : String → List Token → Outcome String Bytes
count_tokens signature tokens = ok (length tokens ∷ [])

abbrev pub valset_log : Log
valset_log = record {
  topics = [] ∷ word 4 ∷ [];
  log_data = concat (valset_words 64 160 ((3000000000, 5) ∷ []) 1);
  transaction_hash = none;
  block_number = none;
}

abbrev pub set_proto : ℕ → ℕ → ValsetProto
set_proto n power = record {
  nonce = n;
  members = record { power = power; ethereum_address = "0x05" } ∷ [];
}

abbrev pub token_proto : Erc20TokenProto
token_proto = record { amount = "40"; contract = "0x05" }

abbrev pub small_world : World
small_world = record {
  eth_block_number = λ h. ok 120000;
  eth_gas_price = λ h. ok 1;
  eth_net_version = λ h. ok 1;
  eth_get_transaction_count = λ h address. ok 7;
  eth_call = λ h address payload.
      if length payload + be_value payload == 1 then ok (word 4) else ok (word 8);
  check_for_events = λ h start end address signature. ok (valset_log ∷ []);
  eth_estimate_gas = λ h sender receiver payload. ok 100;
  send_transaction = λ h receiver payload options. ok 77;
  wait_for_transaction = λ h tx. ok tt;
  check_erc20_approved = λ h erc20 owner spender. ok true;
  approve_erc20_transfers = λ h erc20 spender options. ok 76;
  query_valset = λ h n. ok (some (set_proto n 3000000000));
  query_last_valsets = λ h. ok (set_proto 5 4000000000 ∷ []);
  query_valset_confirms = λ h n.
      ok (
        record { orchestrator = "cosmos1"; eth_address = "0x05"; nonce = n; signature = "0x" }
        ∷ []);
  query_batches = λ h. ok (
      record {
        batch_nonce = 9;
        transactions =
            record {
              id = 1;
              sender = "cosmos1";
              dest_address = "0x05";
              erc20_token = some token_proto;
              erc20_fee = some token_proto;
            }
            ∷ [];
      }
      ∷ []);
  query_batch_confirms = λ h n contract. ok (
      record {
        nonce = n;
        orchestrator = "cosmos1";
        token_contract = "0x05";
        eth_signer = "0x05";
        signature = "0x";
      }
      ∷ []);
}

abbrev pub small_key : EthPrivateKey
small_key = record {
  to_public_key = ok 42;
  signed_bytes = λ nonce price receiver payload network. ok [];
}

abbrev pub small_relayer : Relayer
small_relayer = record {
  num = plain_num;
  eth = plain_eth;
  parsers = plain_parsers;
  encode_call = count_tokens;
  world = small_world;
  peggy_contract_address = 99;
  ethereum_key = small_key;
  skip_small_updates = true;
}
