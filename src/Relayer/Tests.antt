-- ===== src/Relayer/Tests.antt =====
-- The relayer in the world of the examples.
use mathlib.Core.Logic.Or
use minter_hub.Batches.{TransactionBatch}
use minter_hub.Batches.Derived.{batch_cmp, batch_lt}
use minter_hub.Crates.Examples.{plain_eth, plain_num}
use minter_hub.Io.{History, Request}
use minter_hub.Io.Sending.{SendsOnly}
use minter_hub.Prelude.{[], arith, none, refl, ◌∷◌, ◌≡◌}
use minter_hub.Relayer.{find_latest_valset, relay_valsets, search_blocks}
use minter_hub.Relayer.Batches.{relay_batches}
use minter_hub.Relayer.Batches.Nonces.{IsRound, relay_batches-sends}
use minter_hub.Relayer.Examples.{
  batch_9, batch_confirm_9, confirm_5, count_tokens, forty, new_set, set_of, small_key,
  small_relayer, small_world,
}
use minter_hub.Relayer.Relaying.{IsRelayedUpdate, relay_valsets-sends}
use minter_hub.Relayer.Search.{search_blocks-enough}
use minter_hub.Sorting.{insert_sorted, sort}
use minter_hub.Submit.{send_eth_transaction_batch, send_eth_valset_update}
use minter_hub.Submit.Batches.{IsBatchSubmission, send_eth_transaction_batch-sends}
use minter_hub.Submit.Valsets.{IsValsetUpdate, send_eth_valset_update-sends}

send_eth_valset_update-sends_example :
    SendsOnly
      (IsValsetUpdate plain_num count_tokens small_world new_set
        (set_of 4)
        (confirm_5 ∷ [])
        99
        small_key
        [])
      (send_eth_valset_update plain_num count_tokens small_world new_set
        (set_of 4)
        (confirm_5 ∷ [])
        99
        small_key)
      []
send_eth_valset_update-sends_example =
    send_eth_valset_update-sends plain_num count_tokens small_world new_set (set_of 4)
      (confirm_5 ∷ []) 99 small_key []

send_eth_transaction_batch-sends_example :
    SendsOnly
      (IsBatchSubmission plain_num count_tokens small_world batch_9 99 small_key 7
        (set_of 4)
        (batch_confirm_9 ∷ [])
        [])
      (send_eth_transaction_batch plain_num count_tokens small_world
        (set_of 4)
        batch_9
        (batch_confirm_9 ∷ [])
        99
        small_key
        7)
      []
send_eth_transaction_batch-sends_example =
    send_eth_transaction_batch-sends plain_num count_tokens small_world batch_9 99 small_key 7
      (set_of 4) (batch_confirm_9 ∷ []) []

relay_valsets-sends_example :
    SendsOnly (IsRelayedUpdate small_relayer []) (relay_valsets small_relayer) []
relay_valsets-sends_example = relay_valsets-sends small_relayer []

relay_batches-sends_example : SendsOnly (IsRound small_relayer []) (relay_batches small_relayer) []
relay_batches-sends_example = relay_batches-sends small_relayer []

search_blocks-enough_example :
    search_blocks small_relayer 60000 none 60000 ≡ search_blocks small_relayer 70000 none 60000
search_blocks-enough_example =
    search_blocks-enough small_relayer 60000 70000 none 60000 (omega arith) (omega arith)

-- What was called when the search has found the set.
abbrev searched : History
searched =
    (find_latest_valset small_relayer
      (Request.valset_confirms 5 ∷ Request.last_valset_requests ∷ [])).1

abbrev batch_12 : TransactionBatch
batch_12 = record { nonce = 12; transactions = []; total_fee = forty; token_contract = 5 }

sorted_batches : sort (batch_lt plain_eth) (batch_12 ∷ batch_9 ∷ []) ≡ batch_9 ∷ batch_12 ∷ []
unfolding sort insert_sorted batch_lt batch_cmp
sorted_batches = refl
