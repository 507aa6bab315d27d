-- ===== src/Events/Transfers/Laws.antt =====
-- The transfers into the hub and to Minter are read back as the contract has written them.
use Prim.Native.String.{◌++◌ as text_append}
use minter_hub.Abi.{
  address_of_topic-address_word, address_word, from_bytes_be-word, length-word, word,
}
use minter_hub.Bytes.{Bytes, concat, slice}
use minter_hub.Bytes.Slices.{slice-concat, slice_word}
use minter_hub.Crates.{Clarity, Num256}
use minter_hub.Error.{PeggyError}
use minter_hub.Events.{Log, invalid_event}
use minter_hub.Events.Transfers.{send_to_cosmos_from_log}
use minter_hub.Outcome.{>>=-guard, ok}
use minter_hub.Prelude.{
  List, [], arith, drop, if◌then◌else◌, leb, length, refl, some, ℕ, ◌<◌, ◌^◌, ◌∷◌, ◌≡◌,
}
use minter_hub.Words.{u64_max}

module _ (num : Num256) (eth : Clarity) where
  -- The two numbers in the data of a transfer.
  amount_slice :
      (amount nonce : ℕ)
      → slice {E = PeggyError} (concat (word amount ∷ word nonce ∷ [])) 0 32 ≡ ok (word amount)
  amount_slice amount nonce =
      slice-concat (word amount ∷ word nonce ∷ []) 0 0 0 32 (word amount)
        (length-word amount, (length-word nonce, tt)) refl (omega arith) (omega arith) (omega arith)

  nonce_slice :
      (amount nonce : ℕ)
      → slice {E = PeggyError} (concat (word amount ∷ word nonce ∷ [])) 32 64 ≡ ok (word nonce)
  nonce_slice amount nonce =
      slice-concat (word amount ∷ word nonce ∷ []) 1 0 32 64 (word nonce)
        (length-word amount, (length-word nonce, tt)) refl (omega arith) (omega arith) (omega arith)

  -- From a log of a deposit that carries the hash of its transaction, `SendToCosmosEvent::from_log`
  -- reads the token, the sender, the last twenty bytes of the destination, the amount and the nonce
  -- as they were written; it fails exactly when the nonce does not fit a `u64`. The addresses are
  -- below 2 ^ 160, the amount and the nonce below 2 ^ 256.
  pub send_to_cosmos_from_log-roundtrip :
      (log : Log) (topic0 destination hash : Bytes) (more : List Bytes)
      (erc20 sender amount nonce : ℕ)
      → log.topics ≡ topic0 ∷ address_word erc20 ∷ address_word sender ∷ destination ∷ more
      → log.log_data ≡ concat (word amount ∷ word nonce ∷ [])
      → log.transaction_hash ≡ some hash
      → length destination ≡ 32
      → erc20 < 2 ^ 160
      → sender < 2 ^ 160
      → amount < 2 ^ 256
      → nonce < 2 ^ 256
      → send_to_cosmos_from_log num eth log ≡ (
          if leb nonce u64_max
          then ok (record {
            erc20 = erc20;
            sender = sender;
            destination = drop 12 destination;
            amount = amount;
            event_nonce = nonce;
            tx_hash = text_append "0x" (eth.bytes_to_hex_str hash);
          })
          else invalid_event "Event nonce overflow, probably incorrect parsing")
  unfolding send_to_cosmos_from_log
  send_to_cosmos_from_log-roundtrip log t0 d hash more erc20 sender amount nonce ts ds hs l e s a
        n =
      rw
        (
          ts,
          ds,
          hs,
          address_of_topic-address_word num eth erc20 e,
          address_of_topic-address_word num eth sender s,
          slice_word 12 d l (omega arith),
          amount_slice amount nonce,
          nonce_slice amount nonce,
          from_bytes_be-word num eth nonce n,
          from_bytes_be-word num eth amount a,
        )
        (>>=-guard (leb nonce u64_max) _ _)
