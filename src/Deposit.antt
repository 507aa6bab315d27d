-- ===== src/Deposit.antt =====
-- orchestrator/ethereum_peggy/src/send_to_cosmos.rs: a deposit to the bridge contract.
pub mod Sending
pub mod Destination
mod Tests
use Prim.Native.String.{String}
use minter_hub.Bytes.{Bytes}
use minter_hub.Crates.{Num256}
use minter_hub.Error.{PeggyError}
use minter_hub.Ethereum.{Token}
use minter_hub.Io.{Io, Request, SendTxOption, World, perform, pure, ◌>>=◌, ◌>>◌}
use minter_hub.Outcome.{Outcome, bind_outcome, guard, map_err, ok, unwrap}
use minter_hub.Prelude.{
  Bool, List, Option, [], false, if◌then◌else◌, length, ltb, none, not, some, suc, true, zero, ℕ,
  ◌++◌, ◌∷◌,
}
use minter_hub.Submit.{EthPrivateKey}
use minter_hub.Valset.{CosmosAddress, EthAddress}

abbrev pub send_to_cosmos_gas_limit : ℕ
send_to_cosmos_gas_limit = 100000

-- The loops over the options.
unfoldable pub has_nonce : List SendTxOption → Bool
has_nonce [] = false
has_nonce (SendTxOption.tx_nonce n ∷ rest) = true
has_nonce (_ ∷ rest) = has_nonce rest

unfoldable pub has_gas_limit : List SendTxOption → Bool
has_gas_limit [] = false
has_gas_limit (SendTxOption.gas_limit n ∷ rest) = true
has_gas_limit (_ ∷ rest) = has_gas_limit rest

-- The gas limit of the caller, or the default one.
unfoldable pub with_gas_limit : List SendTxOption → List SendTxOption
with_gas_limit options =
    if has_gas_limit options
    then options
    else options ++ SendTxOption.gas_limit send_to_cosmos_gas_limit ∷ []

-- `while cosmos_dest_address_bytes.len() < 32 { insert(0, 0) }`: 32 rounds are enough.
unfoldable pub pad_destination : ℕ → Bytes → Bytes
pad_destination zero bytes = bytes
pad_destination (suc rounds) bytes =
    let longer = pad_destination rounds (0 ∷ bytes) in
    if ltb (length bytes) 32 then longer else bytes

-- The arguments of `send_to_cosmos`, with the crates and the node; `waits` says that there is a
-- timeout to wait for.
pub record Deposit : Type 0 where
  pub num : Num256
  pub encode_call : String → List Token → Outcome String Bytes
  pub web : World
  pub erc20 : EthAddress
  pub peggy_contract : EthAddress
  pub amount : ℕ
  pub cosmos_destination : CosmosAddress
  pub sender_secret : EthPrivateKey
  pub waits : Bool
  pub options : List SendTxOption

module _ (d : Deposit) where
  -- `if let Some(timeout) = wait_timeout { wait_for_transaction(..) }`
  unfoldable pub wait_if_asked : ℕ → Io (Unit {0})
  wait_if_asked txid =
      if d.waits
      then perform (Request.wait_for txid) PeggyError.ethereum_rest_error
          (λ h. d.web.wait_for_transaction h txid)
      else pure (ok tt)

  unfoldable pub count_transactions : EthAddress → Io ℕ
  count_transactions sender_address =
      perform (Request.transaction_count sender_address) PeggyError.ethereum_rest_error
        (λ h. d.web.eth_get_transaction_count h sender_address)

  -- The approval, with the nonce that it was given.
  unfoldable pub approve : EthAddress → Io (Option ℕ)
  approve sender_address = do
    nonce ← count_transactions sender_address
    txid ←
        perform
          (Request.approve_erc20 d.erc20 d.peggy_contract
            (d.options ++ SendTxOption.tx_nonce nonce ∷ []))
          PeggyError.ethereum_rest_error
          (λ h.
            d.web.approve_erc20_transfers h d.erc20 d.peggy_contract
              (d.options ++ SendTxOption.tx_nonce nonce ∷ []))
    wait_if_asked txid
    pure (ok (some nonce))

  unfoldable pub approve_unless : EthAddress → Bool → Io (Option ℕ)
  approve_unless sender_address approved =
      if approved then pure (ok none) else approve sender_address

  -- The d.options of the deposit: behind an approval, the next nonce.
  unfoldable pub deposit_options : Option ℕ → Outcome PeggyError (List SendTxOption)
  deposit_options none = ok (with_gas_limit d.options)
  deposit_options (some nonce) =
      bind_outcome (unwrap (d.num.add nonce 1))
        λ next. ok (with_gas_limit d.options ++ SendTxOption.tx_nonce next ∷ [])

  unfoldable pub deposit_payload : Outcome PeggyError Bytes
  deposit_payload = map_err PeggyError.clarity_error (
      d.encode_call "sendToCosmos(address,bytes32,uint256)" (
        Token.address d.erc20
        ∷ Token.byte_string (pad_destination 32 d.cosmos_destination)
        ∷ Token.uint d.amount
        ∷ []))

  unfoldable pub is_approved : EthAddress → Io Bool
  is_approved sender_address =
      perform (Request.erc20_approved d.erc20 sender_address d.peggy_contract)
        PeggyError.ethereum_rest_error
        (λ h. d.web.check_erc20_approved h d.erc20 sender_address d.peggy_contract)

  unfoldable pub send_deposit : List SendTxOption → Bytes → Io ℕ
  send_deposit tx_options payload = do
    tx_hash ←
        perform (Request.send d.peggy_contract payload tx_options) PeggyError.ethereum_rest_error
          (λ h. d.web.send_transaction h d.peggy_contract payload tx_options)
    wait_if_asked tx_hash
    pure (ok tx_hash)

  unfoldable pub send_to_cosmos : Io ℕ
  send_to_cosmos = do
    sender_address ← pure (map_err PeggyError.clarity_error d.sender_secret.to_public_key)
    pure (
        guard (not (has_nonce d.options))
          (PeggyError.invalid_options_error "This call sends more than one tx! Can't specify"))
    approved ← is_approved sender_address
    approve_nonce ← approve_unless sender_address approved
    tx_options ← pure (deposit_options approve_nonce)
    payload ← pure deposit_payload
    send_deposit tx_options payload
