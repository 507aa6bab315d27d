-- ===== src/Batches/Derived.antt =====
-- `#[derive(PartialOrd)]` of the types of orchestrator/peggy_utils/src/types/batches.rs and mod.rs,
-- which compares the fields in their order, and the order that `sort` gives to batches by it.
use Prim.Native.Nat.{Ordering, compare}
use minter_hub.Batches.{BatchTransaction, Erc20Token, TransactionBatch}
use minter_hub.Crates.{Clarity}
use minter_hub.Order.{is_less}
use minter_hub.Prelude.{Bool, List, [], ◌∷◌}

-- The next comparison decides where the first finds no difference.
abbrev then_cmp : Ordering → Ordering → Ordering
then_cmp Ordering.eq next = next
then_cmp decided next = decided

-- Of a `Vec` or an array.
unfoldable pub list_cmp : {A : Type 0} → (A → A → Ordering) → List A → List A → Ordering
list_cmp cmp [] [] = Ordering.eq
list_cmp cmp [] (y ∷ ys) = Ordering.lt
list_cmp cmp (x ∷ xs) [] = Ordering.gt
list_cmp cmp (x ∷ xs) (y ∷ ys) = then_cmp (cmp x y) (list_cmp cmp xs ys)

module _ (eth : Clarity) where
  -- Of `ERC20Token`.
  unfoldable pub token_cmp : Erc20Token → Erc20Token → Ordering
  token_cmp a b =
      then_cmp (compare a.amount b.amount)
        (eth.address_cmp a.token_contract_address b.token_contract_address)

  -- Of `BatchTransaction`.
  unfoldable pub transaction_cmp : BatchTransaction → BatchTransaction → Ordering
  transaction_cmp a b = then_cmp (compare a.id b.id) (
      then_cmp (list_cmp compare a.sender b.sender) (
        then_cmp (eth.address_cmp a.destination b.destination)
          (then_cmp (token_cmp a.erc20_token b.erc20_token) (token_cmp a.erc20_fee b.erc20_fee))))

  -- Of `TransactionBatch`.
  unfoldable pub batch_cmp : TransactionBatch → TransactionBatch → Ordering
  batch_cmp a b = then_cmp (compare a.nonce b.nonce) (
      then_cmp (list_cmp transaction_cmp a.transactions b.transactions) (
        then_cmp (token_cmp a.total_fee b.total_fee)
          (eth.address_cmp a.token_contract b.token_contract)))

  -- `<`, which the standard `sort` calls.
  unfoldable pub batch_lt : TransactionBatch → TransactionBatch → Bool
  batch_lt a b = is_less (batch_cmp a b)

-- `<` by `Ord for TransactionBatch`.
unfoldable pub nonce_lt : TransactionBatch → TransactionBatch → Bool
nonce_lt a b = is_less (compare a.nonce b.nonce)
