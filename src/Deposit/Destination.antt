-- ===== src/Deposit/Destination.antt =====
-- The destination that `send_to_cosmos` encodes is the one that `SendToCosmosEvent::from_log` reads.
use Prim.Native.String.{◌++◌ as text_append}
use minter_hub.Abi.{address_word, word}
use minter_hub.Bytes.{Bytes, concat}
use minter_hub.Crates.{Clarity, Num256}
use minter_hub.Deposit.{pad_destination}
use minter_hub.Events.{Log}
use minter_hub.Events.Transfers.{send_to_cosmos_from_log}
use minter_hub.Events.Transfers.Laws.{send_to_cosmos_from_log-roundtrip}
use minter_hub.Outcome.{ok}
use minter_hub.Prelude.{
  [], ap, arith, length, length-append, le→leb, le→ltb, lt→ltb, refl, replicate, some, suc, zero, ℕ,
  ◌++◌, ◌+◌, ◌<◌, ◌^◌, ◌∙◌, ◌∷◌, ◌≡◌, ◌≤◌,
}
use minter_hub.Valset.{CosmosAddress}
use minter_hub.Words.{u64_max}

zeros_before : (k : ℕ) (bytes : Bytes) → replicate k 0 ++ 0 ∷ bytes ≡ 0 ∷ (replicate k 0 ++ bytes)
zeros_before zero bytes = refl
zeros_before (suc k) bytes = ap (λ rest. 0 ∷ rest) (zeros_before k bytes)

pad_destination_lem :
    (rounds k : ℕ) (bytes : Bytes)
    → k + length bytes ≡ 32
    → k ≤ rounds
    → pad_destination rounds bytes ≡ replicate k 0 ++ bytes
unfolding pad_destination
pad_destination_lem zero zero bytes h l = refl
pad_destination_lem zero (suc k) bytes h l = absurd (omega arith)
pad_destination_lem (suc rounds) zero bytes h l = rw (le→ltb (length bytes) 32 (omega arith)) refl
pad_destination_lem (suc rounds) (suc k) bytes h l =
    rw (lt→ltb (length bytes) 32 (omega arith))
      (pad_destination_lem rounds k (0 ∷ bytes) (omega arith) (omega arith) ∙ zeros_before k bytes)

module _ (num : Num256) (eth : Clarity) where
  -- When a log carries, as its destination, the 32 bytes that `send_to_cosmos` makes of a Cosmos
  -- address of twenty bytes, and a nonce that fits a `u64`, then `SendToCosmosEvent::from_log` returns
  -- this address, with the token, sender, amount and nonce of the log.
  pub send_to_cosmos_from_log-pad_destination :
      (log : Log) (topic0 hash : Bytes) (destination : CosmosAddress)
      (erc20 sender amount nonce : ℕ)
      → log.topics
        ≡ topic0 ∷ address_word erc20 ∷ address_word sender ∷ pad_destination 32 destination ∷ []
      → log.log_data ≡ concat (word amount ∷ word nonce ∷ [])
      → log.transaction_hash ≡ some hash
      → length destination ≡ 20
      → erc20 < 2 ^ 160
      → sender < 2 ^ 160
      → amount < 2 ^ 256
      → nonce < 2 ^ 64
      → send_to_cosmos_from_log num eth log
        ≡ ok (record {
          erc20 = erc20;
          sender = sender;
          destination = destination;
          amount = amount;
          event_nonce = nonce;
          tx_hash = text_append "0x" (eth.bytes_to_hex_str hash);
        })
  send_to_cosmos_from_log-pad_destination log topic0 hash destination erc20 sender amount nonce ts
        ds hs l e s a n =
      let padded_eq : pad_destination 32 destination ≡ replicate 12 0 ++ destination =
        pad_destination_lem 32 12 destination (omega arith) (omega arith) in
      let full : length (replicate 12 0 ++ destination) ≡ 32 =
        omega (arith, length-append (replicate 12 0) destination) in
      send_to_cosmos_from_log-roundtrip num eth log topic0 (replicate 12 0 ++ destination) hash []
        erc20 sender amount nonce
        (ts ∙ ap (λ d. topic0 ∷ address_word erc20 ∷ address_word sender ∷ d ∷ []) padded_eq) ds hs
        full e s a (omega arith)
      ∙ rw (le→leb nonce u64_max (omega arith)) refl
