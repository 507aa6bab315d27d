-- ===== src/Events/Tests.antt =====
-- The parsers of events at concrete logs.
use minter_hub.Abi.{address_word, word}
use minter_hub.Bytes.{concat}
use minter_hub.Crates.Examples.{plain_eth, plain_num}
use minter_hub.Events.{Log}
use minter_hub.Events.BatchExecuted.{batch_executed_from_log}
use minter_hub.Events.BatchExecuted.Laws.{batch_executed_from_log-roundtrip}
use minter_hub.Events.Transfers.{send_to_cosmos_from_log}
use minter_hub.Events.Transfers.Laws.{send_to_cosmos_from_log-roundtrip}
use minter_hub.Events.ValsetUpdated.{valset_updated_from_log}
use minter_hub.Events.ValsetUpdated.Parsing.{
  Entry, member_of, valset_updated_from_log-roundtrip, valset_words,
}
use minter_hub.Outcome.{ok}
use minter_hub.Prelude.{List, [], arith, map, refl, replicate, some, ◌∷◌, ◌≡◌}

abbrev hub_log : Log
hub_log = record {
  topics = [] ∷ address_word 5 ∷ address_word 6 ∷ replicate 32 1 ∷ [];
  log_data = concat (word 1000 ∷ word 3 ∷ []);
  transaction_hash = some (7 ∷ []);
  block_number = some 12;
}

abbrev minter_log : Log
minter_log = record hub_log { topics = [] ∷ address_word 5 ∷ address_word 6 ∷ address_word 8 ∷ [] }

abbrev batch_log : Log
batch_log = record hub_log {
  topics = [] ∷ word 4 ∷ address_word 5 ∷ address_word 6 ∷ [];
  log_data = word 3;
}

-- Two members, and a number of powers that is wrong.
abbrev members : List Entry
members = (3000000000, 5) ∷ (1000000000, 7) ∷ []

abbrev valset_log : Log
valset_log = record hub_log {
  topics = [] ∷ word 4 ∷ [];
  log_data = concat (valset_words 64 192 members 9);
}

send_to_cosmos_from_log-roundtrip_example :
    send_to_cosmos_from_log plain_num plain_eth hub_log
    ≡ ok (record {
      erc20 = 5;
      sender = 6;
      destination = replicate 20 1;
      amount = 1000;
      event_nonce = 3;
      tx_hash = "0x07";
    })
send_to_cosmos_from_log-roundtrip_example =
    send_to_cosmos_from_log-roundtrip plain_num plain_eth hub_log [] (replicate 32 1) (7 ∷ []) [] 5
      6 1000 3 refl refl refl refl (omega arith) (omega arith) (omega arith) (omega arith)

batch_executed_from_log-roundtrip_example :
    batch_executed_from_log plain_num plain_eth batch_log
    ≡ ok (record { batch_nonce = 4; erc20 = 5; sender = 6; event_nonce = 3; tx_hash = "0x07" })
batch_executed_from_log-roundtrip_example =
    batch_executed_from_log-roundtrip plain_num plain_eth batch_log [] (7 ∷ []) [] 4 5 6 3 refl refl
      refl (omega arith) (omega arith) (omega arith) (omega arith)

valset_updated_from_log-roundtrip_example :
    valset_updated_from_log plain_num plain_eth valset_log
    ≡ ok (record { nonce = 4; members = map member_of members })
valset_updated_from_log-roundtrip_example =
    valset_updated_from_log-roundtrip plain_num plain_eth valset_log [] [] 4 64 192 members 9 refl
      refl (omega arith) (omega arith)
      ((omega arith, omega arith), ((omega arith, omega arith), tt)) (omega arith)
