-- ===== src/Valset.antt =====
-- The validator sets of orchestrator/peggy_utils/src/types/valsets.rs and the confirmations that sign
-- them, with the signatures of types/signatures.rs. An `EthAddress` is the number that its twenty
-- bytes spell, and its default is zero. A `Uint256` is a natural number.
pub mod Power
pub mod Signing
mod Tests
use minter_hub.Prelude.{
  ℕ, Option, none, some, List, [], ◌∷◌, ◌==◌, if◌then◌else◌, Bool, false, true,
}
use minter_hub.Dict.{HashMap, HashSet, insert, add}
use minter_hub.Outcome.{Outcome, ok, err}
use Prim.Native.String.{String}

abbrev pub EthAddress : Type 0
EthAddress = ℕ

-- `EthAddress::default()`
abbrev pub zero_address : EthAddress
zero_address = 0

-- `clarity::Signature`
pub record EthSignature : Type 0 where
  pub v : ℕ
  pub r : ℕ
  pub s : ℕ

pub record ValsetMember : Type 0 where
  pub power : ℕ
  pub eth_address : Option EthAddress

pub record Valset : Type 0 where
  pub nonce : ℕ
  pub members : List ValsetMember

-- `deep_space::address::Address`: its twenty bytes.
abbrev pub CosmosAddress : Type 0
CosmosAddress = List ℕ

pub record ValsetConfirmResponse : Type 0 where
  pub orchestrator : CosmosAddress
  pub eth_address : EthAddress
  pub nonce : ℕ
  pub eth_signature : EthSignature

pub record BatchConfirmResponse : Type 0 where
  pub nonce : ℕ
  pub orchestrator : CosmosAddress
  pub token_contract : EthAddress
  pub ethereum_signer : EthAddress
  pub eth_signature : EthSignature

pub record PeggySignature : Type 0 where
  pub power : ℕ
  pub eth_address : EthAddress
  pub v : ℕ
  pub r : ℕ
  pub s : ℕ

-- `JsonRpcError`, as far as `get_power` raises it.
pub data JsonRpcError : Type 0 where
  bad_input : String → JsonRpcError

-- The address of a member, with zero where it has none.
abbrev pub address_or_zero : Option EthAddress → EthAddress
address_or_zero none = zero_address
address_or_zero (some a) = a

unfoldable pub filter_empty_addresses : List ValsetMember → List EthAddress × List ℕ
filter_empty_addresses [] = ([], [])
filter_empty_addresses (val ∷ rest) =
    let (addresses, powers) = filter_empty_addresses rest in
    (address_or_zero val.eth_address ∷ addresses, val.power ∷ powers)

-- `val.eth_address == Some(address)`
abbrev pub is_at : EthAddress → ValsetMember → Bool
is_at address val = elim val.eth_address [ none ↦ false | some a ↦ a == address ]

unfoldable pub get_power : List ValsetMember → EthAddress → Outcome JsonRpcError ℕ
get_power [] address = err (bad_input "All Eth Addresses must be set")
get_power (val ∷ rest) address = if is_at address val then ok val.power else get_power rest address

-- The body of the loop of `to_hashmap`.
abbrev pub insert_member : HashMap ℕ → ValsetMember → HashMap ℕ
insert_member res item = elim item.eth_address [
  | none ↦ res
  | some address ↦ insert address item.power res
]

abbrev pub to_hashmap_from : HashMap ℕ → List ValsetMember → HashMap ℕ
to_hashmap_from res [] = res
to_hashmap_from res (item ∷ rest) = to_hashmap_from (insert_member res item) rest

unfoldable pub to_hashmap : Valset → HashMap ℕ
to_hashmap v = to_hashmap_from [] v.members

abbrev pub add_member : HashSet → ValsetMember → HashSet
add_member res item = elim item.eth_address [ none ↦ res | some address ↦ add address res ]

abbrev pub to_hashset_from : HashSet → List ValsetMember → HashSet
to_hashset_from res [] = res
to_hashset_from res (item ∷ rest) = to_hashset_from (add_member res item) rest

unfoldable pub to_hashset : Valset → HashSet
to_hashset v = to_hashset_from [] v.members
