-- ===== src/Events.antt =====
-- The logs of the Ethereum contract and the events that orchestrator/peggy_utils/src/types/
-- ethereum_events.rs reads from them.
pub mod BatchExecuted
pub mod Transfers
pub mod ValsetUpdated
mod Tests
use Prim.Native.String.{String, ◌++◌ as text_append}
use minter_hub.Bytes.{Bytes, slice}
use minter_hub.Crates.{Clarity}
use minter_hub.Error.{PeggyError}
use minter_hub.Outcome.{Outcome, err, guard, map_err, ok, ok_or, unwrap, ◌>>=◌}
use minter_hub.Prelude.{List, Option, [], get_elem?, if◌then◌else◌, leb, ltb, ℕ, ◌∷◌}
use minter_hub.Valset.{EthAddress}
use minter_hub.Words.{u64_max}

-- `web30::types::Log`, as far as it is read.
pub record Log : Type 0 where
  pub topics : List Bytes
  pub log_data : Bytes
  pub transaction_hash : Option Bytes
  pub block_number : Option ℕ

abbrev pub invalid_event : {A : Type 0} → String → Outcome PeggyError A
invalid_event message = err (PeggyError.invalid_event_log_error message)

-- `input.topics.get(i)`, with the error of a log that has too few.
abbrev pub topic : Log → ℕ → Outcome PeggyError Bytes
topic log i = ok_or (get_elem? log.topics i) (PeggyError.invalid_event_log_error "Too few topics")

-- A number that is to fit a `u64`.
abbrev pub fits_u64 : ℕ → String → Outcome PeggyError (Unit {0})
fits_u64 n message = guard (leb n u64_max) (PeggyError.invalid_event_log_error message)

-- `item.event_nonce > event_nonce.into()` over a list: the body of each `filter_by_event_nonce`.
unfoldable pub keep_later : {A : Type 0} → (A → ℕ) → ℕ → List A → List A
keep_later nonce_of event_nonce [] = []
keep_later nonce_of event_nonce (item ∷ rest) =
    let ret = keep_later nonce_of event_nonce rest in
    if ltb event_nonce (nonce_of item) then item ∷ ret else ret

module _ (eth : Clarity) where
  -- `EthAddress::from_slice(&word[12..32])?`
  unfoldable pub address_of_topic : Bytes → Outcome PeggyError EthAddress
  address_of_topic bytes =
      slice bytes 12 32 >>= λ address. map_err PeggyError.clarity_error (eth.from_slice address)

  -- `format!("0x{}", bytes_to_hex_str(input.transaction_hash.as_deref().unwrap()))`
  abbrev pub tx_hash_of : Log → Outcome PeggyError String
  tx_hash_of input =
      unwrap input.transaction_hash >>= λ hash. ok (text_append "0x" (eth.bytes_to_hex_str hash))
