-- ===== src/Deposit/Tests.antt =====
-- A deposit at a concrete node that asks for an approval first.
use minter_hub.Abi.{address_word, word}
use minter_hub.Bytes.{concat}
use minter_hub.Crates.Examples.{plain_eth, plain_num}
use minter_hub.Deposit.{
  Deposit, approve, approve_unless, count_transactions, deposit_options, deposit_payload,
  has_gas_limit, has_nonce, is_approved, pad_destination, send_deposit, send_to_cosmos,
  wait_if_asked, with_gas_limit,
}
use minter_hub.Deposit.Destination.{send_to_cosmos_from_log-pad_destination}
use minter_hub.Events.{Log}
use minter_hub.Events.Transfers.{send_to_cosmos_from_log}
use minter_hub.Io.{SendTxOption, World, continue, perform, pure, ◌>>=◌}
use minter_hub.Io.Sending.{sent}
use minter_hub.Outcome.{ok}
use minter_hub.Prelude.{[], arith, false, length, none, refl, replicate, some, true, ◌∷◌, ◌≡◌}

abbrev node : World
node = record {
  eth_block_number = λ h. ok 1;
  eth_gas_price = λ h. ok 1;
  eth_net_version = λ h. ok 1;
  eth_get_transaction_count = λ h account. ok 7;
  eth_call = λ h account payload. ok [];
  check_for_events = λ h start end account signature. ok [];
  eth_estimate_gas = λ h sender receiver payload. ok 100;
  send_transaction = λ h receiver payload options. ok 77;
  wait_for_transaction = λ h tx. ok tt;
  check_erc20_approved = λ h erc20 owner spender. ok false;
  approve_erc20_transfers = λ h erc20 spender options. ok 76;
  query_valset = λ h n. ok none;
  query_last_valsets = λ h. ok [];
  query_valset_confirms = λ h n. ok [];
  query_batches = λ h. ok [];
  query_batch_confirms = λ h n contract. ok [];
}

abbrev deposit_call : Deposit
deposit_call = record {
  num = plain_num;
  encode_call = λ signature tokens. ok (length tokens ∷ []);
  web = node;
  erc20 = 5;
  peggy_contract = 99;
  amount = 1000;
  cosmos_destination = replicate 20 1;
  sender_secret = record {
    to_public_key = ok 42;
    signed_bytes = λ nonce price receiver payload network. ok [];
  };
  waits = true;
  options = [];
}

next_nonce :
    sent ((send_to_cosmos deposit_call []).1)
    ≡ (99, 3 ∷ [], SendTxOption.gas_limit 100000 ∷ SendTxOption.tx_nonce 8 ∷ []) ∷ []
unfolding send_to_cosmos is_approved approve_unless approve count_transactions wait_if_asked
    deposit_options deposit_payload send_deposit with_gas_limit has_gas_limit has_nonce ◌>>=◌
    continue pure perform sent
next_nonce = refl

abbrev deposit_log : Log
deposit_log = record {
  topics = [] ∷ address_word 5 ∷ address_word 42 ∷ pad_destination 32 (replicate 20 1) ∷ [];
  log_data = concat (word 1000 ∷ word 3 ∷ []);
  transaction_hash = some (7 ∷ []);
  block_number = none;
}

send_to_cosmos_from_log-pad_destination_example :
    send_to_cosmos_from_log plain_num plain_eth deposit_log
    ≡ ok (record {
      erc20 = 5;
      sender = 42;
      destination = replicate 20 1;
      amount = 1000;
      event_nonce = 3;
      tx_hash = "0x07";
    })
send_to_cosmos_from_log-pad_destination_example =
    send_to_cosmos_from_log-pad_destination plain_num plain_eth deposit_log [] (7 ∷ [])
      (replicate 20 1) 5 42 1000 3 refl refl refl refl (omega arith) (omega arith) (omega arith)
      (omega arith)
