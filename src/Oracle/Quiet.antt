-- ===== src/Oracle/Quiet.antt =====
-- The queries of the oracle broadcast nothing.
use Prim.Native.String.{String}
use minter_hub.Io.{History, attempt}
use minter_hub.Io.Broadcasting.{
  >>=-AddsAt_quiet, AddsAt, attempt-AddsAt, broadcasts, perform-AddsAt, pure-AddsAt,
}
use minter_hub.Oracle.{Oracle, get_events, get_last_event_nonce, get_newest_block, get_tx_info}
use minter_hub.Prelude.{refl, ℕ}
use minter_hub.SignMsg.{StdSignMsg}
use minter_hub.Valset.{CosmosAddress}

module _ (P : StdSignMsg → Type 0) (o : Oracle) where
  pub get_tx_info-AddsAt :
      (account : CosmosAddress) (h : History) → AddsAt P 0 (get_tx_info o account) h
  unfolding get_tx_info broadcasts
  get_tx_info-AddsAt account h =
      >>=-AddsAt_quiet P 0 _ _ h (perform-AddsAt P _ _ _ h refl) λ info h₁ e₁.
        >>=-AddsAt_quiet P 0 _ _ h₁ (pure-AddsAt P _ h₁) λ numbers h₂ e₂.
          >>=-AddsAt_quiet P 0 _ _ h₂ (perform-AddsAt P _ _ _ h₂ refl)
            λ chain_id h₃ e₃. pure-AddsAt P _ h₃

  pub get_events-AddsAt :
      (start end : ℕ) (signature : String) (h : History)
      → AddsAt P 0 (attempt (get_events o start end signature)) h
  unfolding get_events broadcasts
  get_events-AddsAt start end signature h = attempt-AddsAt P 0 _ h (perform-AddsAt P _ _ _ h refl)

  pub get_last_event_nonce-AddsAt :
      (account : CosmosAddress) (h : History) → AddsAt P 0 (get_last_event_nonce o account) h
  unfolding get_last_event_nonce broadcasts
  get_last_event_nonce-AddsAt account h = perform-AddsAt P _ _ _ h refl

  pub get_newest_block-AddsAt : (h : History) → AddsAt P 0 (get_newest_block o) h
  unfolding get_newest_block broadcasts
  get_newest_block-AddsAt h = perform-AddsAt P _ _ _ h refl
