-- ===== src/Ethereum.antt =====
-- orchestrator/ethereum_peggy/src/utils.rs and message_signatures.rs, with `to_arrays` of
-- orchestrator/peggy_utils/src/types/signatures.rs: what is signed, and what the contract is called
-- with. `encode_tokens` of clarity and the digest of sha3 are arguments.
pub mod Nonces
pub mod Arrays
pub mod Payloads
mod Tests
use Prim.Native.String.{String}
use minter_hub.Bytes.{Bytes, be_value}
use minter_hub.Crates.{Num256}
use minter_hub.Error.{PeggyError}
use minter_hub.Outcome.{Outcome, assert, ok, panic, unwrap, ◌>>=◌, ◌>>◌}
use minter_hub.Prelude.{
  Bool, List, Option, [], if◌then◌else◌, leb, length, ltb, none, replicate, reverse, some, suc,
  zero, ℕ, ◌++◌, ◌-◌, ◌==◌, ◌∷◌,
}
use minter_hub.Valset.{
  CosmosAddress, EthAddress, PeggySignature, Valset, ValsetConfirmResponse, filter_empty_addresses,
}
use minter_hub.Words.{u64_max}

-- `clarity::abi::Token`, as far as it is built. The arrays hold tokens of one kind.
pub data Token : Type 0 where
  uint : ℕ → Token
  address : EthAddress → Token
  fixed_string : String → Token
  byte_string : Bytes → Token
  dynamic_uint : List ℕ → Token
  dynamic_address : List EthAddress → Token
  dynamic_bytes : List Bytes → Token

-- `get_correct_sig_for_address`; `same` is the comparison of Cosmos addresses.
unfoldable pub get_correct_sig_for_address :
    {E : Type 0}
    → (CosmosAddress → CosmosAddress → Bool)
    → CosmosAddress
    → List ValsetConfirmResponse
    → Outcome E (ℕ × ℕ × ℕ)
get_correct_sig_for_address same wanted [] = panic
get_correct_sig_for_address same wanted (sig ∷ rest) =
    let others = get_correct_sig_for_address same wanted rest in
    if same sig.orchestrator wanted
    then ok (sig.eth_signature.v, sig.eth_signature.r, sig.eth_signature.s)
    else others

-- `while val.len() < 8 { val.insert(0, 0) }`: eight rounds are enough.
unfoldable pub pad_to_8 : ℕ → Bytes → Bytes
pad_to_8 zero val = val
pad_to_8 (suc f) val =
    let longer = pad_to_8 f (0 ∷ val) in if ltb (length val) 8 then longer else val

-- `downcast_nonce`: the copy of the slice panics unless it has eight bytes.
unfoldable pub downcast_nonce : {E : Type 0} → Num256 → ℕ → Outcome E (Option ℕ)
downcast_nonce num input =
    let val = pad_to_8 8 (num.to_bytes_be input) in
    if leb u64_max input then ok none else (assert (length val == 8) >> ok (some (be_value val)))

-- `downcast_nonce(..).expect(..)`
abbrev pub expect_nonce : {E : Type 0} → Num256 → ℕ → Outcome E ℕ
expect_nonce num input = downcast_nonce num input >>= λ nonce. unwrap nonce

-- The tokens of the checkpoint of a validator set.
unfoldable pub valset_checkpoint : String → Valset → List Token
valset_checkpoint peggy_id valset =
    let (eth_addresses, powers) = filter_empty_addresses valset.members in
    Token.fixed_string peggy_id
    ∷ Token.fixed_string "checkpoint"
    ∷ Token.uint valset.nonce
    ∷ Token.dynamic_address eth_addresses
    ∷ Token.dynamic_uint powers
    ∷ []

module _ (encode_tokens : List Token → Bytes) where
  unfoldable pub get_checkpoint_abi_encode : Valset → String → Outcome PeggyError Bytes
  get_checkpoint_abi_encode valset peggy_id = ok (encode_tokens (valset_checkpoint peggy_id valset))

  unfoldable pub get_checkpoint_hash : (Bytes → Bytes) → Valset → String → Outcome PeggyError Bytes
  get_checkpoint_hash digest valset peggy_id =
      get_checkpoint_abi_encode valset peggy_id >>= λ encoded. ok (digest encoded)

  unfoldable pub encode_valset_confirm : String → Valset → Bytes
  encode_valset_confirm peggy_id valset = encode_tokens (valset_checkpoint peggy_id valset)

-- `PeggySignatureArrays`
pub record PeggySignatureArrays : Type 0 where
  pub addresses : List EthAddress
  pub powers : List ℕ
  pub v : Token
  pub r : Token
  pub s : Token

-- `val.reverse(); val.append(&mut vec![0; 32 - val.len()]); val.reverse()`: more than 32 bytes panic.
unfoldable pub pad_to_32 : {E : Type 0} → Bytes → Outcome E Bytes
pad_to_32 val =
    if leb (length val) 32
    then ok (reverse (reverse val ++ replicate (32 - length (reverse val)) 0))
    else panic

-- The loop of `to_arrays`, which returns what it pushes to each vector.
unfoldable pub to_arrays_loop :
    {E : Type 0}
    → Num256
    → List PeggySignature
    → Outcome E (List EthAddress × List ℕ × List ℕ × List Bytes × List Bytes)
to_arrays_loop num [] = ok ([], [], [], [], [])
to_arrays_loop num (val ∷ rest) = pad_to_32 (num.to_bytes_be val.r) >>= λ r_val.
    pad_to_32 (num.to_bytes_be val.s) >>= λ s_val.
    to_arrays_loop num rest >>= λ (addresses, powers, v, r, s).
    ok (val.eth_address ∷ addresses, val.power ∷ powers, val.v ∷ v, r_val ∷ r, s_val ∷ s)

unfoldable pub to_arrays :
    {E : Type 0} → Num256 → List PeggySignature → Outcome E PeggySignatureArrays
to_arrays num input = to_arrays_loop num input >>= λ (addresses, powers, v, r, s). ok (record {
  addresses = addresses;
  powers = powers;
  v = Token.dynamic_uint v;
  r = Token.dynamic_bytes r;
  s = Token.dynamic_bytes s;
})
