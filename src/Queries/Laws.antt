-- ===== src/Queries/Laws.antt =====
-- The queries send nothing.
use minter_hub.Batches.{Parsers}
use minter_hub.Crates.{Clarity, Num256}
use minter_hub.Io.{World}
use minter_hub.Io.Sending.{>>=-IsQuiet, IsQuiet, perform-IsQuiet, pure-IsQuiet, sent}
use minter_hub.Prelude.{refl, ℕ}
use minter_hub.Queries.{
  get_all_valset_confirms, get_latest_transaction_batches, get_latest_valsets,
  get_transaction_batch_signatures, get_valset,
}
use minter_hub.Valset.{EthAddress}

module _ (num : Num256) (eth : Clarity) (parsers : Parsers) (world : World) where
  pub get_valset-IsQuiet : (nonce : ℕ) → IsQuiet (get_valset num eth parsers world nonce)
  unfolding get_valset sent
  get_valset-IsQuiet nonce =
      >>=-IsQuiet _ _ (perform-IsQuiet _ _ _ (λ h. refl)) λ answer. pure-IsQuiet _

  pub get_latest_valsets-IsQuiet : IsQuiet (get_latest_valsets num eth parsers world)
  unfolding get_latest_valsets sent
  get_latest_valsets-IsQuiet =
      >>=-IsQuiet _ _ (perform-IsQuiet _ _ _ (λ h. refl)) λ answer. pure-IsQuiet _

  pub get_all_valset_confirms-IsQuiet :
      (nonce : ℕ) → IsQuiet (get_all_valset_confirms num eth parsers world nonce)
  unfolding get_all_valset_confirms sent
  get_all_valset_confirms-IsQuiet nonce =
      >>=-IsQuiet _ _ (perform-IsQuiet _ _ _ (λ h. refl)) λ answer. pure-IsQuiet _

  pub get_latest_transaction_batches-IsQuiet :
      IsQuiet (get_latest_transaction_batches num eth parsers world)
  unfolding get_latest_transaction_batches sent
  get_latest_transaction_batches-IsQuiet =
      >>=-IsQuiet _ _ (perform-IsQuiet _ _ _ (λ h. refl)) λ answer. pure-IsQuiet _

  pub get_transaction_batch_signatures-IsQuiet :
      (nonce : ℕ) (contract_address : EthAddress)
      → IsQuiet (get_transaction_batch_signatures num eth parsers world nonce contract_address)
  unfolding get_transaction_batch_signatures sent
  get_transaction_batch_signatures-IsQuiet nonce contract_address =
      >>=-IsQuiet _ _ (perform-IsQuiet _ _ _ (λ h. refl)) λ answer. pure-IsQuiet _
