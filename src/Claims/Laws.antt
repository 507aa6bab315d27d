-- ===== src/Claims/Laws.antt =====
-- What `send_ethereum_claims` claims.
use mathlib.Core.List.Pairwise
use mathlib.Core.List.{Pairwise, Perm}
use minter_hub.Claims.{
  PeggyMsg, claim_msgs, deposit_claim_from_event, minter_claim_from_event, minter_request,
  msg_event_nonce, msg_lt, withdraw_claim_from_event,
}
use minter_hub.Crates.{Num256}
use minter_hub.Ethereum.{expect_nonce}
use minter_hub.Ethereum.Nonces.{downcast_nonce_lem}
use minter_hub.Events.BatchExecuted.{TransactionBatchExecutedEvent}
use minter_hub.Events.Transfers.{SendToCosmosEvent, SendToMinterEvent}
use minter_hub.Outcome.{Outcome, ok, traverse}
use minter_hub.Prelude.{
  All, List, [], arith, ltb→le, lt→ltb, map, refl, ℕ, ◌++◌, ◌<◌, ◌∷◌, ◌≡◌, ◌≤◌,
}
use minter_hub.Sorting.{sort}
use minter_hub.Sorting.Laws.{Orders, sort-IsSorted, sort-perm}
use minter_hub.Valset.{CosmosAddress}

-- The claims of events, with their nonces as they are.
abbrev pub minter_claim : CosmosAddress → SendToMinterEvent → PeggyMsg
minter_claim our_address e = PeggyMsg.send_to_minter_claim_msg (record {
  event_nonce = e.event_nonce;
  token_contract = e.erc20;
  amount = e.amount;
  ethereum_sender = e.sender;
  minter_receiver = e.destination;
  orchestrator = our_address;
  tx_hash = e.tx_hash;
})

abbrev pub deposit_claim : CosmosAddress → SendToCosmosEvent → PeggyMsg
deposit_claim our_address e = PeggyMsg.deposit_claim_msg (record {
  event_nonce = e.event_nonce;
  token_contract = e.erc20;
  amount = e.amount;
  ethereum_sender = e.sender;
  cosmos_receiver = e.destination;
  orchestrator = our_address;
  tx_hash = e.tx_hash;
})

abbrev pub withdraw_claim : CosmosAddress → TransactionBatchExecutedEvent → PeggyMsg
withdraw_claim our_address e = PeggyMsg.withdraw_claim_msg (record {
  event_nonce = e.event_nonce;
  batch_nonce = e.batch_nonce;
  token_contract = e.erc20;
  orchestrator = our_address;
  tx_sender = e.sender;
  tx_hash = e.tx_hash;
})

-- The nonces of events that `downcast_nonce` accepts.
abbrev pub MinterFits : SendToMinterEvent → Type 0
MinterFits e = e.event_nonce < 18446744073709551615

abbrev pub DepositFits : SendToCosmosEvent → Type 0
DepositFits e = e.event_nonce < 18446744073709551615

abbrev pub WithdrawFits : TransactionBatchExecutedEvent → Type 0
WithdrawFits e = (e.event_nonce < 18446744073709551615) × (e.batch_nonce < 18446744073709551615)

expect_nonce_lem :
    {E : Type 0} (num : Num256) (n : ℕ)
    → n < 18446744073709551615
    → expect_nonce {E = E} num n ≡ ok n
expect_nonce_lem num n h = rw (downcast_nonce_lem num n, lt→ltb n 18446744073709551615 h) refl

traverse-map :
    {E A B : Type 0} (P : A → Type 0) (f : A → Outcome E B) (g : A → B)
    → ((a : A) → P a → f a ≡ ok (g a))
    → (xs : List A) → All P xs
    → traverse f xs ≡ ok (map g xs)
unfolding traverse
traverse-map P f g h [] p = refl
traverse-map P f g h (x ∷ xs) (p, ps) = rw (h x p, traverse-map P f g h xs ps) refl

msg_lt-Orders : Orders msg_lt
msg_lt-Orders = record { asym = λ a b h. ground arith; trans = λ a b c h k. ground arith }

-- The claims in the order of the source, before they are sorted.
abbrev pub all_claims :
    CosmosAddress
    → List SendToCosmosEvent
    → List TransactionBatchExecutedEvent
    → List SendToMinterEvent
    → List PeggyMsg
all_claims our_address deposits withdraws transfers =
    map (minter_claim our_address) transfers
    ++ map (deposit_claim our_address) deposits
    ++ map (withdraw_claim our_address) withdraws
    ++ minter_request our_address transfers

module _ (E : Type 0) (num : Num256) (our_address : CosmosAddress) where
  minter_claim_lem :
      (e : SendToMinterEvent)
      → MinterFits e
      → minter_claim_from_event {E = E} num our_address e ≡ ok (minter_claim our_address e)
  unfolding minter_claim_from_event
  minter_claim_lem e h = rw (expect_nonce_lem {E = E} num e.event_nonce h) refl

  deposit_claim_lem :
      (e : SendToCosmosEvent)
      → DepositFits e
      → deposit_claim_from_event {E = E} num our_address e ≡ ok (deposit_claim our_address e)
  unfolding deposit_claim_from_event
  deposit_claim_lem e h = rw (expect_nonce_lem {E = E} num e.event_nonce h) refl

  withdraw_claim_lem :
      (e : TransactionBatchExecutedEvent)
      → WithdrawFits e
      → withdraw_claim_from_event {E = E} num our_address e ≡ ok (withdraw_claim our_address e)
  unfolding withdraw_claim_from_event
  withdraw_claim_lem e (h, k) =
      rw
        (expect_nonce_lem {E = E} num e.event_nonce h, expect_nonce_lem {E = E} num e.batch_nonce k)
        refl

  module _ (deposits : List SendToCosmosEvent) (withdraws : List TransactionBatchExecutedEvent)
      (transfers : List SendToMinterEvent) where
    claim_msgs-sort :
        All DepositFits deposits
        → All WithdrawFits withdraws
        → All MinterFits transfers
        → claim_msgs {E = E} num our_address deposits withdraws transfers
          ≡ ok (sort msg_lt (all_claims our_address deposits withdraws transfers))
    unfolding claim_msgs
    claim_msgs-sort d w t =
        rw
          (
            traverse-map MinterFits (minter_claim_from_event {E = E} num our_address)
                (minter_claim our_address) minter_claim_lem transfers t,
            traverse-map DepositFits (deposit_claim_from_event {E = E} num our_address)
                (deposit_claim our_address) deposit_claim_lem deposits d,
            traverse-map WithdrawFits (withdraw_claim_from_event {E = E} num our_address)
                (withdraw_claim our_address) withdraw_claim_lem withdraws w,
          )
          refl

    -- When all nonces are below `u64::MAX`, `send_ethereum_claims` does not panic while it builds its
    -- messages: they are a permutation of one claim for each transfer, deposit and executed batch,
    -- with the event's data unchanged, and of a request for a batch to Minter if there is a transfer;
    -- and no message stands behind one with a greater event nonce.
    pub claim_msgs_lem :
        All DepositFits deposits
        → All WithdrawFits withdraws
        → All MinterFits transfers
        → (msgs : List PeggyMsg) × (claim_msgs {E = E} num our_address deposits withdraws transfers
            ≡ ok msgs)
          × Perm msgs (all_claims our_address deposits withdraws transfers)
          × Pairwise (λ a b. msg_event_nonce a ≤ msg_event_nonce b) msgs
    claim_msgs_lem d w t = (
      sort msg_lt (all_claims our_address deposits withdraws transfers),
      claim_msgs-sort d w t,
      sort-perm msg_lt (all_claims our_address deposits withdraws transfers),
      Pairwise.imp (λ a b h. ltb→le (msg_event_nonce b) (msg_event_nonce a) h)
          (sort-IsSorted msg_lt msg_lt-Orders
            (all_claims our_address deposits withdraws transfers)),
    )
