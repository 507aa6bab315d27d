-- ===== src/Deposit/Sending.antt =====
-- The transaction that a deposit sends.
use minter_hub.Bytes.{Bytes}
use minter_hub.Deposit.{
  Deposit, count_transactions, deposit_payload, has_gas_limit, has_nonce, with_gas_limit,
}
use minter_hub.Io.{History, SendTxOption}
use minter_hub.Io.Sending.{Sent, sent}
use minter_hub.Outcome.{Outcome, ok}
use minter_hub.Prelude.{List, [], false, true, ℕ, ◌++◌, ◌+◌, ◌∷◌, ◌≡◌, ◌⊎◌}
use minter_hub.Valset.{EthAddress}

module _ (d : Deposit) where
  -- The options of the deposit are those of the caller with a gas limit, and behind an approval the
  -- nonce after the number of transactions that the node answered for the approval.
  unfoldable pub OptionsFit : List SendTxOption → Type 0
  OptionsFit tx_options =
      (tx_options ≡ with_gas_limit d.options)
      ⊎ ((sender : EthAddress) × (asked : History) × (nonce : ℕ) × ((count_transactions d sender
              asked).0
            ≡ ok nonce)
          × (tx_options ≡ with_gas_limit d.options ++ SendTxOption.tx_nonce (nonce + 1) ∷ []))

  module _ (h : History) where
    -- One transaction was sent after the history: the call of `sendToCosmos`.
    unfoldable pub IsDeposit : List Sent → Type 0
    IsDeposit sends =
        (payload : Bytes) × (tx_options : List SendTxOption) × (deposit_payload d ≡ ok payload)
        × (has_nonce d.options ≡ false)
        × (has_gas_limit tx_options ≡ true)
        × OptionsFit tx_options
        × (sends ≡ (d.peggy_contract, payload, tx_options) ∷ sent h)
