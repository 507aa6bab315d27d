-- ===== src/Claims/Tests.antt =====
-- Claims of concrete events.
use mathlib.Core.List.{Pairwise, Perm}
use minter_hub.Claims.{PeggyMsg, claim_msgs, minter_request, msg_event_nonce, msg_lt}
use minter_hub.Claims.Laws.{all_claims, claim_msgs_lem, deposit_claim, minter_claim, withdraw_claim}
use minter_hub.Crates.Examples.{plain_num}
use minter_hub.Error.{PeggyError}
use minter_hub.Events.BatchExecuted.{TransactionBatchExecutedEvent}
use minter_hub.Events.Transfers.{SendToCosmosEvent, SendToMinterEvent}
use minter_hub.Outcome.{ok}
use minter_hub.Prelude.{List, [], arith, refl, replicate, ◌∷◌, ◌≡◌, ◌≤◌}
use minter_hub.Sorting.{insert_sorted, sort}
use minter_hub.Valset.{CosmosAddress}

abbrev deposit : SendToCosmosEvent
deposit = record {
  erc20 = 5;
  sender = 6;
  destination = replicate 20 1;
  amount = 1000;
  event_nonce = 3;
  tx_hash = "0x07";
}

abbrev withdraw : TransactionBatchExecutedEvent
withdraw = record { batch_nonce = 9; erc20 = 5; sender = 6; event_nonce = 2; tx_hash = "0x08" }

abbrev transfer : SendToMinterEvent
transfer = record {
  erc20 = 5;
  sender = 6;
  destination = "Mx05";
  amount = 10;
  event_nonce = 4;
  tx_hash = "0x09";
}

abbrev us : CosmosAddress
us = replicate 20 2

sorted_by_nonce :
    sort msg_lt (all_claims us (deposit ∷ []) (withdraw ∷ []) (transfer ∷ []))
    ≡ withdraw_claim us withdraw
      ∷ deposit_claim us deposit
      ∷ minter_claim us transfer
      ∷ PeggyMsg.request_minter_batch_msg (record { requester = us })
      ∷ []
unfolding sort insert_sorted msg_event_nonce minter_request
sorted_by_nonce = refl

claim_msgs_lem_example :
    (msgs : List PeggyMsg) × (claim_msgs {E = PeggyError} plain_num us
        (deposit ∷ [])
        (withdraw ∷ [])
        (transfer ∷ [])
      ≡ ok msgs)
    × Perm msgs (all_claims us (deposit ∷ []) (withdraw ∷ []) (transfer ∷ []))
    × Pairwise (λ a b. msg_event_nonce a ≤ msg_event_nonce b) msgs
claim_msgs_lem_example =
    claim_msgs_lem PeggyError plain_num us (deposit ∷ []) (withdraw ∷ []) (transfer ∷ [])
      (omega arith, tt) ((omega arith, omega arith), tt) (omega arith, tt)
