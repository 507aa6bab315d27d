-- ===== src/Oracle/Examples.antt =====
-- An oracle at a concrete node, which has one deposit that is not claimed yet.
use minter_hub.Abi.{address_word, word}
use minter_hub.Bytes.{concat}
use minter_hub.Crates.Examples.{plain_eth, plain_num}
use minter_hub.Events.{Log}
use minter_hub.Io.{World}
use minter_hub.Oracle.{Oracle}
use minter_hub.Outcome.{ok}
use minter_hub.Prelude.{[], false, if◌then◌else◌, length, none, replicate, some, ℕ, ◌+◌, ◌==◌, ◌∷◌}

abbrev pub hub_log : Log
hub_log = record {
  topics = [] ∷ address_word 5 ∷ address_word 6 ∷ replicate 32 1 ∷ [];
  log_data = concat (word 1000 ∷ word 3 ∷ []);
  transaction_hash = some (7 ∷ []);
  block_number = some 12;
}

-- The deposits are the first logs that are asked for; `before` is the number of calls before the
-- round of the oracle.
abbrev pub watched_node : ℕ → World
watched_node before = record {
  eth_block_number = λ h. ok 120;
  eth_gas_price = λ h. ok 1;
  eth_net_version = λ h. ok 1;
  eth_get_transaction_count = λ h account. ok 7;
  eth_call = λ h account payload. ok [];
  check_for_events =
      λ h start end account signature. if length h == before + 1 then ok (hub_log ∷ []) else ok [];
  eth_estimate_gas = λ h sender receiver payload. ok 100;
  send_transaction = λ h receiver payload options. ok 77;
  wait_for_transaction = λ h tx. ok tt;
  check_erc20_approved = λ h erc20 owner spender. ok false;
  approve_erc20_transfers = λ h erc20 spender options. ok 76;
  query_valset = λ h n. ok none;
  query_last_valsets = λ h. ok [];
  query_valset_confirms = λ h n. ok [];
  query_batches = λ h. ok [];
  query_batch_confirms = λ h n contract. ok [];
}

-- The chain has the nonce 2 for us before the claim, and 3 behind it. It has none at the start.
abbrev pub oracle_at : ℕ → Oracle
oracle_at before = record {
  num = plain_num;
  eth = plain_eth;
  world = watched_node before;
  peggy_contract_address = 99;
  our_address = ok (replicate 20 2);
  sign_std_msg = λ msg. ok [];
  fee = record { denom = "hub"; amount = 1 };
  query_last_event_nonce =
      λ h us. if length h == before + 5 then ok 2 else if length h == 1 then ok 0 else ok 3;
  get_account_info = λ h us. ok (some (4, 8));
  get_chain_id = λ h. ok "mhub";
  retry_on_block = λ h tx. ok tt;
}
