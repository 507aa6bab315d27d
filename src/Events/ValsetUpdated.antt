-- ===== src/Events/ValsetUpdated.antt =====
-- `ValsetUpdatedEvent` of orchestrator/peggy_utils/src/types/ethereum_events.rs. A `Uint256` that was
-- tested against `u64::MAX` or `usize::MAX` is printed and parsed again in the source; here the number
-- itself is kept. The comparison with the sorted set at the end only writes to the log.
pub mod Parsing
use minter_hub.Bytes.{Bytes, slice}
use minter_hub.Crates.{Clarity, Num256}
use minter_hub.Error.{PeggyError}
use minter_hub.Events.{Log, fits_u64, topic}
use minter_hub.Outcome.{Outcome, guard, map_err, ok, traverse, ◌>>=◌, ◌>>◌}
use minter_hub.Prelude.{List, [], some, suc, zero, ℕ, ◌+◌, ◌==◌, ◌∷◌}
use minter_hub.Valset.{ValsetMember}
use minter_hub.Words.{add_u64, mul_u64}

pub record ValsetUpdatedEvent : Type 0 where
  pub nonce : ℕ
  pub members : List ValsetMember

module _ (num : Num256) (eth : Clarity) where
  -- The body of the loop.
  unfoldable pub read_member : Bytes → ℕ → ℕ → ℕ → Outcome PeggyError ValsetMember
  read_member bytes eth_addresses_offset powers_offset i = do
    let power_start = add_u64 (mul_u64 i 32) powers_offset
    let power_end = add_u64 power_start 32
    let address_start = add_u64 (mul_u64 i 32) eth_addresses_offset
    let address_end = add_u64 address_start 32
    power_word ← slice bytes power_start power_end
    let power = num.from_bytes_be power_word
    address_bytes ← slice bytes (add_u64 address_start 12) address_end
    eth_address ←
        map_err
          (λ e.
            PeggyError.invalid_event_log_error
              "Ethereum Address parsing error, probably incorrect parsing")
          (eth.from_slice address_bytes)
    fits_u64 power "Power greater than u64::MAX, probably incorrect parsing"
    ok (record { power = power; eth_address = some eth_address })

  -- `for i in 0..len_eth_addresses`, with the rounds that are left.
  unfoldable pub read_members : Bytes → ℕ → ℕ → ℕ → ℕ → Outcome PeggyError (List ValsetMember)
  read_members bytes eth_addresses_offset powers_offset zero i = ok []
  read_members bytes eth_addresses_offset powers_offset (suc n) i =
      read_member bytes eth_addresses_offset powers_offset i >>= λ m.
      read_members bytes eth_addresses_offset powers_offset n (i + 1) >>= λ rest. ok (m ∷ rest)

  -- `ValsetUpdatedEvent::from_log`
  unfoldable pub valset_updated_from_log : Log → Outcome PeggyError ValsetUpdatedEvent
  valset_updated_from_log input = do
    nonce_data ← topic input 1
    let nonce = num.from_bytes_be nonce_data
    fits_u64 nonce "Nonce overflow, probably incorrect parsing"
    let bytes = input.log_data
    len_word ← slice bytes 64 96
    let len_eth_addresses = num.from_bytes_be len_word
    fits_u64 len_eth_addresses "Ethereum array len overflow, probably incorrect parsing"
    let index_start = mul_u64 (add_u64 3 len_eth_addresses) 32
    let index_end = add_u64 index_start 32
    let powers_offset = add_u64 index_start 32
    powers_word ← slice bytes index_start index_end
    fits_u64 (num.from_bytes_be powers_word) "Powers array len overflow, probably incorrect parsing"
    let len_powers = len_eth_addresses
    guard (len_powers == len_eth_addresses)
        (PeggyError.invalid_event_log_error "Array len mismatch, probably incorrect parsing")
    validators ← read_members bytes 96 powers_offset len_eth_addresses 0
    ok (record { nonce = nonce; members = validators })

  -- `ValsetUpdatedEvent::from_logs`
  unfoldable pub valset_updated_from_logs : List Log → Outcome PeggyError (List ValsetUpdatedEvent)
  valset_updated_from_logs input = traverse valset_updated_from_log input
