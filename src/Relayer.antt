-- ===== src/Relayer.antt =====
-- orchestrator/relayer/src: the search for the current validator set (find_latest_valset.rs), and one
-- round of relaying validator sets (valset_relaying.rs); the batches are in the module below.
pub mod Search
pub mod Relaying
pub mod Updating
pub mod Batches
pub mod Silent
pub mod Rounds
mod Examples
mod Tests
use Prim.Native.String.{String}
use minter_hub.Batches.{Parsers}
use minter_hub.Bytes.{Bytes}
use minter_hub.Crates.{Clarity, Num256}
use minter_hub.Error.{PeggyError}
use minter_hub.Ethereum.{Token}
use minter_hub.Events.{Log}
use minter_hub.Events.ValsetUpdated.{ValsetUpdatedEvent, valset_updated_from_log}
use minter_hub.Float.{F32, lt}
use minter_hub.Io.{Io, Request, World, attempt, perform, pure, ◌>>=◌, ◌>>◌}
use minter_hub.Order.{check_if_valsets_differ}
use minter_hub.Outcome.{Outcome, bind_outcome, err, ok, panic, unwrap_result}
use minter_hub.Prelude.{
  Bool, List, Option, [], false, if◌then◌else◌, inl, inr, ltb, none, reverse, some, suc, zero, ℕ,
  ◌-◌, ◌==◌, ◌∷◌, ◌⊎◌,
}
use minter_hub.Queries.{get_all_valset_confirms, get_latest_valsets, get_valset}
use minter_hub.Submit.{EthPrivateKey, get_valset_nonce, send_eth_valset_update}
use minter_hub.Valset.{EthAddress, Valset, ValsetConfirmResponse}
use minter_hub.Valset.Power.{power_diff}

-- What the relayer is given: the crates, the nodes, the contract and our key. `skip_small_updates`
-- says that NO_GAS_OPT was not set when the relayer was compiled.
pub record Relayer : Type 0 where
  pub num : Num256
  pub eth : Clarity
  pub parsers : Parsers
  pub encode_call : String → List Token → Outcome String Bytes
  pub world : World
  pub peggy_contract_address : EthAddress
  pub ethereum_key : EthPrivateKey
  pub skip_small_updates : Bool

abbrev pub blocks_to_search : ℕ
blocks_to_search = 50000

abbrev pub valset_updated_signature : String
valset_updated_signature = "ValsetUpdatedEvent(uint256,address[],uint256[])"

-- The first block of the window that ends at a block.
unfoldable pub end_search : ℕ → ℕ
end_search current_block =
    if ltb current_block blocks_to_search then 0 else current_block - blocks_to_search

-- `0.01` as `f32`
abbrev pub one_percent : F32
one_percent = record { num = 10737418; scale = 30 }

module _ (r : Relayer) where
  -- The set of an event that was parsed; an event that does not parse is only logged.
  unfoldable pub update_of :
      Outcome PeggyError ValsetUpdatedEvent → Outcome PeggyError (Option Valset)
  update_of (ok event) = ok (some (record { nonce = event.nonce; members = event.members }))
  update_of (err e) = ok none
  update_of panic = panic

  -- `all_valset_events.reverse()`, and the first of them.
  unfoldable pub newest_update : List Log → Outcome PeggyError (Option Valset)
  newest_update all_valset_events = first (reverse all_valset_events)
    where
      first : List Log → Outcome PeggyError (Option Valset)
      first [] = ok none
      first (event ∷ rest) = update_of (valset_updated_from_log r.num r.eth event)

  unfoldable pub get_window : ℕ → Io (List Log)
  get_window current_block =
      perform
        (Request.get_logs (end_search current_block) current_block r.peggy_contract_address
          valset_updated_signature)
        PeggyError.ethereum_rest_error
        (λ h.
          r.world.check_for_events h (end_search current_block) current_block
            r.peggy_contract_address valset_updated_signature)

  -- The end of a round of the loop: the set, or the next round.
  unfoldable pub found_or : Option Valset → Io Valset → Option Valset → Io Valset
  found_or cosmos_chain_valset next_round (some valset) =
      pure (
        bind_outcome (check_if_valsets_differ r.eth cosmos_chain_valset valset)
          λ verdict. ok valset)
  found_or cosmos_chain_valset next_round none = next_round

  -- The body of the loop.
  unfoldable pub search_round : Option Valset → Io Valset → ℕ → Io Valset
  search_round cosmos_chain_valset next_round current_block = do
    all_valset_events ← get_window current_block
    found ← pure (newest_update all_valset_events)
    found_or cosmos_chain_valset next_round found

  -- `while current_block > 0`, with the `panic!` behind it.
  unfoldable pub search_blocks : ℕ → Option Valset → ℕ → Io Valset
  search_blocks zero cosmos_chain_valset current_block = pure panic
  search_blocks (suc rounds) cosmos_chain_valset current_block =
      let next_round = search_blocks rounds cosmos_chain_valset (end_search current_block) in
      if current_block == 0
      then pure panic
      else search_round cosmos_chain_valset next_round current_block

  unfoldable pub get_block_number : Io ℕ
  get_block_number =
      perform Request.block_number PeggyError.ethereum_rest_error r.world.eth_block_number

  -- As many rounds as blocks are enough.
  unfoldable pub find_latest_valset : Io Valset
  find_latest_valset = do
    latest_block ← get_block_number
    latest_ethereum_valset ← get_valset_nonce r.num r.encode_call r.world r.peggy_contract_address
    cosmos_chain_valset ← get_valset r.num r.eth r.parsers r.world latest_ethereum_valset
    search_blocks latest_block cosmos_chain_valset latest_block

  -- A set with its confirmations, if the query did not fail.
  unfoldable pub confirmed_or :
      Valset
      → Io (Option (List ValsetConfirmResponse × Valset))
      → PeggyError ⊎ List ValsetConfirmResponse
      → Io (Option (List ValsetConfirmResponse × Valset))
  confirmed_or set others (inl e) = others
  confirmed_or set others (inr confirms) = pure (ok (some (confirms, set)))

  -- The first set whose confirmations the Cosmos node returns, with them.
  unfoldable pub first_confirmed : List Valset → Io (Option (List ValsetConfirmResponse × Valset))
  first_confirmed [] = pure (ok none)
  first_confirmed (set ∷ rest) =
      attempt (get_all_valset_confirms r.num r.eth r.parsers r.world set.nonce)
      >>= confirmed_or set (first_confirmed rest)

  unfoldable pub has_small_diff : Valset → Valset → Outcome PeggyError Bool
  has_small_diff current_valset latest_valset =
      bind_outcome (power_diff current_valset latest_valset) λ diff. ok (lt diff one_percent)

  -- Whether the update is small enough to be skipped.
  unfoldable pub is_small : Valset → Valset → Outcome PeggyError Bool
  is_small current_valset latest_valset =
      if r.skip_small_updates then has_small_diff current_valset latest_valset else ok false

  -- `send_eth_valset_update`, whose result is dropped.
  unfoldable pub update_valset : Valset → Valset → List ValsetConfirmResponse → Io (Unit {0})
  update_valset latest_valset current_valset confirms =
      attempt (
        send_eth_valset_update r.num r.encode_call r.world latest_valset current_valset confirms
          r.peggy_contract_address r.ethereum_key)
      >>= λ res. pure (ok tt)

  unfoldable pub update_unless_small :
      List ValsetConfirmResponse → Valset → Valset → Bool → Io (Unit {0})
  update_unless_small confirms latest_valset current_valset small =
      if small then pure (ok tt) else update_valset latest_valset current_valset confirms

  unfoldable pub update_newer : List ValsetConfirmResponse → Valset → Valset → Io (Unit {0})
  update_newer confirms latest_valset current_valset =
      pure (is_small current_valset latest_valset)
      >>= update_unless_small confirms latest_valset current_valset

  -- `relay_valsets`, with the confirmed set and the current one.
  unfoldable pub update_if_newer :
      List ValsetConfirmResponse → Valset → PeggyError ⊎ Valset → Io (Unit {0})
  update_if_newer confirms latest_valset (inl e) = pure (ok tt)
  update_if_newer confirms latest_valset (inr current_valset) =
      if ltb current_valset.nonce latest_valset.nonce
      then update_newer confirms latest_valset current_valset
      else pure (ok tt)

  unfoldable pub relay_confirmed : Option (List ValsetConfirmResponse × Valset) → Io (Unit {0})
  relay_confirmed none = pure (ok tt)
  relay_confirmed (some (confirms, latest_valset)) =
      attempt find_latest_valset >>= update_if_newer confirms latest_valset

  unfoldable pub relay_latest : PeggyError ⊎ List Valset → Io (Unit {0})
  relay_latest (inl e) = pure (ok tt)
  relay_latest (inr latest_valsets) = first_confirmed latest_valsets >>= relay_confirmed

  unfoldable pub relay_valsets : Io (Unit {0})
  relay_valsets = do
    our_ethereum_address ← pure (unwrap_result r.ethereum_key.to_public_key)
    latest_valsets ← attempt (get_latest_valsets r.num r.eth r.parsers r.world)
    relay_latest latest_valsets
