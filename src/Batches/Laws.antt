-- ===== src/Batches/Laws.antt =====
-- What is read from a batch of the Cosmos chain, and what is signed for it.
use minter_hub.Batches.{
  BatchTransaction, Erc20Token, OutgoingTransferTxProto, OutgoingTxBatchProto, Parsers,
  TransactionBatch, add_fee, amounts_and_destinations, batch_transaction_from_proto,
  get_checkpoint_values, read_transactions, transaction_batch_from_proto,
}
use minter_hub.Crates.{Clarity, Num256}
use minter_hub.Error.{PeggyError}
use minter_hub.Ethereum.{Token}
use minter_hub.Outcome.{>>=-parts, Outcome, err, ok, traverse}
use minter_hub.Prelude.{
  List, [], arith, length, map, refl, some, subst, true, ℕ, ◌+◌, ◌<◌, ◌==◌, ◌^◌, ◌∷◌, ◌≡◌,
}
use native.Mathlib.Nat.{add-zero, add_assoc}

-- The fees of the transactions, added up.
abbrev pub fee_sum : List BatchTransaction → ℕ
fee_sum [] = 0
fee_sum (tx ∷ rest) = tx.erc20_fee.amount + fee_sum rest

-- The batch with the given transactions.
abbrev pub batch_of : ℕ → List BatchTransaction → Outcome PeggyError TransactionBatch
batch_of nonce [] =
    err (PeggyError.invalid_bridge_state_error "Transaction batch containing no transactions!")
batch_of nonce (tx ∷ rest) = ok (record {
  nonce = nonce;
  transactions = tx ∷ rest;
  total_fee = record {
    amount = fee_sum (tx ∷ rest);
    token_contract_address = tx.erc20_fee.token_contract_address;
  };
  token_contract = tx.erc20_fee.token_contract_address;
})

amounts_and_destinations_lem :
    (txs : List BatchTransaction)
    → amounts_and_destinations txs ≡ (
      map (λ (tx : BatchTransaction). tx.erc20_token.amount) txs,
      map (λ (tx : BatchTransaction). tx.destination) txs,
    )
unfolding amounts_and_destinations
amounts_and_destinations_lem [] = refl
amounts_and_destinations_lem (tx ∷ rest) = rw (amounts_and_destinations_lem rest) refl

length-map_both :
    {A : Type 0} (f g : A → ℕ) (xs : List A) → (length (map f xs) == length (map g xs)) ≡ true
length-map_both f g [] = refl
length-map_both f g (x ∷ xs) = ground (arith, length-map_both f g xs)

-- `get_checkpoint_values` never panics: it returns the amounts and the destinations of all
-- transactions in their order.
get_checkpoint_values_lem :
    (E : Type 0) (batch : TransactionBatch)
    → get_checkpoint_values {E = E} batch
      ≡ ok (
        Token.dynamic_uint
            (map (λ (tx : BatchTransaction). tx.erc20_token.amount) batch.transactions),
        Token.dynamic_address (map (λ (tx : BatchTransaction). tx.destination) batch.transactions),
      )
unfolding get_checkpoint_values
get_checkpoint_values_lem E batch =
    rw
      (
        amounts_and_destinations_lem batch.transactions,
        length-map_both (λ (tx : BatchTransaction). tx.erc20_token.amount)
            (λ (tx : BatchTransaction). tx.destination) batch.transactions,
      )
      refl

-- The transactions that the parser returns for each of the inputs.
data Reads {A B : Type 0} (f : A → Outcome PeggyError B) : List A → List B → Type 0 where
  nothing : Reads f [] []
  one :
      (a : A) (b : B) (xs : List A) (ys : List B)
      → f a ≡ ok b
      → Reads f xs ys
      → Reads f (a ∷ xs) (b ∷ ys)

Reads-traverse :
    {A B : Type 0} (f : A → Outcome PeggyError B) (inputs : List A) (outputs : List B)
    → traverse f inputs ≡ ok outputs
    → Reads f inputs outputs
unfolding traverse
Reads-traverse f [] outputs h = let e : [] ≡ outputs = cc in subst (Reads f []) e Reads.nothing
Reads-traverse f (a ∷ xs) outputs h =
    let (b, p, q) = >>=-parts (f a) _ h in
    let (ys, r, s) = >>=-parts (traverse f xs) _ q in
    let e : b ∷ ys ≡ outputs = cc in
    subst (Reads f (a ∷ xs)) e (Reads.one a b xs ys p (Reads-traverse f xs ys r))

module _ (num : Num256) (eth : Clarity) (parsers : Parsers) where
  read_transactions_lem :
      (inputs : List OutgoingTransferTxProto) (total : Erc20Token) (txs : List BatchTransaction)
      → Reads (batch_transaction_from_proto num eth parsers) inputs txs
      → total.amount + fee_sum txs < 2 ^ 256
      → read_transactions num eth parsers (some total) inputs
        ≡ ok (txs, some (record total { amount = total.amount + fee_sum txs }))
  unfolding read_transactions add_fee
  read_transactions_lem inputs total txs Reads.nothing k = rw (add-zero total.amount) refl
  read_transactions_lem inputs total txs (Reads.one input tx rest more p r) k =
      let grown : Erc20Token = record total { amount = total.amount + tx.erc20_fee.amount } in
      rw
        (
          p,
          num.add_fits total.amount tx.erc20_fee.amount (omega arith),
          read_transactions_lem rest grown more r (omega arith),
          add_assoc total.amount tx.erc20_fee.amount (fee_sum more),
        )
        refl

  -- When every transaction of a batch parses and their fees add up to less than 2 ^ 256,
  -- `TransactionBatch::from_proto` returns these transactions with the nonce, the sum of their fees xs
  -- the total fee, and the contract of the first fee xs the token; a batch without transactions is
  -- an error.
  pub transaction_batch_from_proto_lem :
      (input : OutgoingTxBatchProto) (txs : List BatchTransaction)
      → traverse (batch_transaction_from_proto num eth parsers) input.transactions ≡ ok txs
      → fee_sum txs < 2 ^ 256
      → transaction_batch_from_proto num eth parsers input ≡ batch_of input.batch_nonce txs
  unfolding transaction_batch_from_proto read_transactions add_fee
  transaction_batch_from_proto_lem input txs h k =
      of_reads input.batch_nonce input.transactions txs
        (Reads-traverse (batch_transaction_from_proto num eth parsers) input.transactions txs h) k
    where
      of_reads :
          (nonce : ℕ) (inputs : List OutgoingTransferTxProto) (txs : List BatchTransaction)
          → Reads (batch_transaction_from_proto num eth parsers) inputs txs
          → fee_sum txs < 2 ^ 256
          → transaction_batch_from_proto num eth parsers
              (record { batch_nonce = nonce; transactions = inputs })
            ≡ batch_of nonce txs
      of_reads nonce inputs txs Reads.nothing k = refl
      of_reads nonce inputs txs (Reads.one input tx rest more p r) k =
          rw (p, read_transactions_lem rest tx.erc20_fee more r k) refl
