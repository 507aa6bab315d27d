-- ===== src/Events/BatchExecuted/Laws.antt =====
-- The execution of a batch is read back as the contract has written it.
use Prim.Native.String.{◌++◌ as text_append}
use minter_hub.Abi.{address_of_topic-address_word, address_word, from_bytes_be-word, word}
use minter_hub.Bytes.{Bytes}
use minter_hub.Crates.{Clarity, Num256}
use minter_hub.Events.{Log, invalid_event}
use minter_hub.Events.BatchExecuted.{batch_executed_from_log}
use minter_hub.Outcome.{ok}
use minter_hub.Prelude.{List, arith, if◌then◌else◌, leb, some, ℕ, ◌&&◌, ◌<◌, ◌^◌, ◌∷◌, ◌≡◌}
use minter_hub.Words.{u64_max}

module _ (num : Num256) (eth : Clarity) where
  -- From a log of an executed batch that carries the hash of its transaction,
  -- `TransactionBatchExecutedEvent::from_log` reads both nonces, the token and the sender as they were
  -- written; it fails exactly when one of the nonces does not fit a `u64`. The addresses are below
  -- 2 ^ 160, the nonces below 2 ^ 256.
  pub batch_executed_from_log-roundtrip :
      (log : Log) (topic0 hash : Bytes) (more : List Bytes)
      (batch_nonce erc20 sender event_nonce : ℕ)
      → log.topics ≡ topic0 ∷ word batch_nonce ∷ address_word erc20 ∷ address_word sender ∷ more
      → log.log_data ≡ word event_nonce
      → log.transaction_hash ≡ some hash
      → batch_nonce < 2 ^ 256
      → erc20 < 2 ^ 160
      → sender < 2 ^ 160
      → event_nonce < 2 ^ 256
      → batch_executed_from_log num eth log ≡ (
          if leb event_nonce u64_max && leb batch_nonce u64_max
          then ok (record {
            batch_nonce = batch_nonce;
            erc20 = erc20;
            sender = sender;
            event_nonce = event_nonce;
            tx_hash = text_append "0x" (eth.bytes_to_hex_str hash);
          })
          else invalid_event "Event nonce overflow, probably incorrect parsing")
  unfolding batch_executed_from_log
  batch_executed_from_log-roundtrip log t0 hash more batch erc20 sender event ts ds hs b e s n =
      rw
        (
          ts,
          ds,
          hs,
          address_of_topic-address_word num eth erc20 e,
          address_of_topic-address_word num eth sender s,
          from_bytes_be-word num eth event n,
          from_bytes_be-word num eth batch b,
        )
        (ground arith)
