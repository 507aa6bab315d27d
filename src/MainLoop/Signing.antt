-- ===== src/MainLoop/Signing.antt =====
-- The signer confirms only what the chain hands to it, under the identifier of the contract.
use Prim.Native.String.{String}
use minter_hub.Bytes.{Bytes}
use minter_hub.Error.{PeggyError}
use minter_hub.Io.{History, Io, attempt}
use minter_hub.Io.Broadcasting.{
  >>=-AddsAt_quiet, Adds-map, AddsAt, attempt-AddsAt, broadcasts, perform-AddsAt, pure-AddsAt,
  pure-AddsAt_within,
}
use minter_hub.Io.Running.{attempt-result, unwrapped}
use minter_hub.MainLoop.{eth_signer_main_loop, signer_with}
use minter_hub.MainLoop.Confirming.{IsConfirm, signer_rounds-Confirms}
use minter_hub.Outcome.{ok}
use minter_hub.Prelude.{inl, inr, refl, ℕ, ◌*◌, ◌≡◌, ◌⊎◌}
use minter_hub.Send.{Orchestrator}
use minter_hub.SignMsg.{StdSignMsg}
use minter_hub.Submit.{get_peggy_id}
use minter_hub.Valset.{CosmosAddress}

module _ (s : Orchestrator) where
  abbrev pub bridge_id : Io Bytes
  bridge_id = get_peggy_id s.oracle.num s.encode_call s.oracle.world s.oracle.peggy_contract_address

  -- A confirmation for our address, signed under the identifier that the contract answered.
  unfoldable pub IsSigned : StdSignMsg → Type 0
  IsSigned msg =
      (us : CosmosAddress) × (asked : History) × (bytes : Bytes) × (peggy_id : String)
      × (s.oracle.our_address ≡ ok us)
      × ((bridge_id asked).0 ≡ ok bytes)
      × (s.from_utf8 bytes ≡ ok peggy_id)
      × IsConfirm s peggy_id us msg

  pub bridge_id-quiet : (h : History) → AddsAt IsSigned 0 bridge_id h
  unfolding get_peggy_id broadcasts
  bridge_id-quiet h =
      >>=-AddsAt_quiet IsSigned 0 _ _ h (pure-AddsAt IsSigned _ h)
        λ payload next e. perform-AddsAt IsSigned _ _ _ next refl

  signer_with-signs :
      (rounds : ℕ) (us : CosmosAddress) (res : PeggyError ⊎ Bytes) (h asked : History)
      → s.oracle.our_address ≡ ok us
      → (attempt bridge_id asked).0 ≡ ok res
      → AddsAt IsSigned (2 * rounds) (signer_with s rounds us res) h
  unfolding signer_with IsSigned
  signer_with-signs rounds us (inl x) h asked key e = pure-AddsAt_within IsSigned (2 * rounds) _ h
  signer_with-signs rounds us (inr bytes) h asked key e =
      >>=-AddsAt_quiet IsSigned (2 * rounds) _ _ h (pure-AddsAt IsSigned _ h) λ peggy_id next q.
        Adds-map (IsConfirm s peggy_id us) IsSigned (2 * rounds) next _
          (λ msg p. (
            us,
            asked,
            bytes,
            peggy_id,
            key,
            attempt-result _ asked bytes e,
            unwrapped (s.from_utf8 bytes) h peggy_id q,
            p,
          ))
          (signer_rounds-Confirms s peggy_id us key rounds next)

  pub eth_signer_main_loop-signs :
      (rounds : ℕ) (h : History) → AddsAt IsSigned (2 * rounds) (eth_signer_main_loop s rounds) h
  unfolding eth_signer_main_loop
  eth_signer_main_loop-signs rounds h =
      >>=-AddsAt_quiet IsSigned (2 * rounds) _ _ h (pure-AddsAt IsSigned _ h) λ us h₁ e₁.
        >>=-AddsAt_quiet IsSigned (2 * rounds) _ _ h₁ (pure-AddsAt IsSigned _ h₁) λ eth h₂ e₂.
          >>=-AddsAt_quiet IsSigned (2 * rounds) _ _ h₂
            (attempt-AddsAt IsSigned 0 _ h₂ (bridge_id-quiet h₂))
            λ id h₃ e₃.
              signer_with-signs rounds us id h₃ h₂ (unwrapped s.oracle.our_address h us e₁) e₃
