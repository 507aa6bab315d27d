-- ===== src/Events/Transfers.antt =====
-- `SendToCosmosEvent` and `SendToMinterEvent` of
-- orchestrator/peggy_utils/src/types/ethereum_events.rs.
pub mod Laws
use Prim.Native.Char.{code}
use Prim.Native.String.{String, ◌++◌ as text_append}
use minter_hub.Bytes.{slice}
use minter_hub.Crates.{Clarity, Num256}
use minter_hub.Error.{PeggyError}
use minter_hub.Events.{Log, address_of_topic, fits_u64, keep_later, topic, tx_hash_of}
use minter_hub.Outcome.{Outcome, ok, traverse, ◌>>=◌, ◌>>◌}
use minter_hub.Prelude.{List, false, true, ℕ, ◌&&◌, ◌==◌}
use minter_hub.Valset.{CosmosAddress, EthAddress}

pub record SendToCosmosEvent : Type 0 where
  pub erc20 : EthAddress
  pub sender : EthAddress
  pub destination : CosmosAddress
  pub amount : ℕ
  pub event_nonce : ℕ
  pub tx_hash : String

pub record SendToMinterEvent : Type 0 where
  pub erc20 : EthAddress
  pub sender : EthAddress
  pub destination : String
  pub amount : ℕ
  pub event_nonce : ℕ
  pub tx_hash : String

-- `.replace("0x", "Mx")`: every occurrence, from the left.
pub replace_0x : String → String
replace_0x String.[] = String.[]
replace_0x (String.◌∷◌ c String.[]) = String.◌∷◌ c String.[]
replace_0x (String.◌∷◌ c (String.◌∷◌ d s)) = elim (code c == b'0' && code d == b'x') [
  | true ↦ text_append "Mx" (replace_0x s)
  | false ↦ String.◌∷◌ c (replace_0x (String.◌∷◌ d s))
]

module _ (num : Num256) (eth : Clarity) where
  -- `SendToCosmosEvent::from_log`
  unfoldable pub send_to_cosmos_from_log : Log → Outcome PeggyError SendToCosmosEvent
  send_to_cosmos_from_log input = do
    erc20_data ← topic input 1
    sender_data ← topic input 2
    destination_data ← topic input 3
    erc20 ← address_of_topic eth erc20_data
    sender ← address_of_topic eth sender_data
    destination ← slice destination_data 12 32
    amount_word ← slice input.log_data 0 32
    nonce_word ← slice input.log_data 32 64
    let event_nonce = num.from_bytes_be nonce_word
    fits_u64 event_nonce "Event nonce overflow, probably incorrect parsing"
    tx_hash ← tx_hash_of eth input
    ok (record {
      erc20 = erc20;
      sender = sender;
      destination = destination;
      amount = num.from_bytes_be amount_word;
      event_nonce = event_nonce;
      tx_hash = tx_hash;
    })

  unfoldable pub send_to_cosmos_from_logs : List Log → Outcome PeggyError (List SendToCosmosEvent)
  send_to_cosmos_from_logs input = traverse send_to_cosmos_from_log input

  -- `SendToMinterEvent::from_log`
  unfoldable pub send_to_minter_from_log : Log → Outcome PeggyError SendToMinterEvent
  send_to_minter_from_log input = do
    erc20_data ← topic input 1
    sender_data ← topic input 2
    destination_data ← topic input 3
    erc20 ← address_of_topic eth erc20_data
    sender ← address_of_topic eth sender_data
    destination ← address_of_topic eth destination_data
    amount_word ← slice input.log_data 0 32
    nonce_word ← slice input.log_data 32 64
    let event_nonce = num.from_bytes_be nonce_word
    fits_u64 event_nonce "Event nonce overflow, probably incorrect parsing"
    tx_hash ← tx_hash_of eth input
    ok (record {
      erc20 = erc20;
      sender = sender;
      destination = replace_0x (eth.address_to_string destination);
      amount = num.from_bytes_be amount_word;
      event_nonce = event_nonce;
      tx_hash = tx_hash;
    })

  unfoldable pub send_to_minter_from_logs : List Log → Outcome PeggyError (List SendToMinterEvent)
  send_to_minter_from_logs input = traverse send_to_minter_from_log input

-- `SendToCosmosEvent::filter_by_event_nonce`
unfoldable pub deposits_after : ℕ → List SendToCosmosEvent → List SendToCosmosEvent
deposits_after event_nonce input = keep_later (λ e. e.event_nonce) event_nonce input

-- `SendToMinterEvent::filter_by_event_nonce`
unfoldable pub transfers_after : ℕ → List SendToMinterEvent → List SendToMinterEvent
transfers_after event_nonce input = keep_later (λ e. e.event_nonce) event_nonce input
