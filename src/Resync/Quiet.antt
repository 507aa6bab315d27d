-- ===== src/Resync/Quiet.antt =====
-- The resync broadcasts nothing.
use minter_hub.Error.{PeggyError}
use minter_hub.Events.{Log}
use minter_hub.Io.{History, Io}
use minter_hub.Io.Broadcasting.{>>=-AddsAt_quiet, AddsAt, attempt-AddsAt, pure-AddsAt}
use minter_hub.Oracle.{Oracle}
use minter_hub.Oracle.Quiet.{
  get_events-AddsAt, get_last_event_nonce-AddsAt, get_newest_block-AddsAt,
}
use minter_hub.Prelude.{Bool-cases, List, Option, inl, inr, none, some, suc, zero, ℕ, ◌==◌, ◌⊎◌}
use minter_hub.Resync.{
  event_round, get_block_number_with_retry, get_last_checked_block, get_last_event_nonce_with_retry,
  next_window, resync_from, retry, retry_or, search_answers, search_events, search_from,
  window_start,
}
use minter_hub.SignMsg.{StdSignMsg}
use minter_hub.Valset.{CosmosAddress}

module _ (P : StdSignMsg → Type 0) where
  -- A function broadcasts nothing from any history.
  abbrev Silent : {A : Type 0} → Io A → Type 0
  Silent m = (h : History) → AddsAt P 0 m h

  retry-AddsAt : {A : Type 0} (attempts : ℕ) (m : Io A) → Silent m → Silent (retry attempts m)
  unfolding retry retry_or
  retry-AddsAt zero m quiet h = pure-AddsAt P _ h
  retry-AddsAt {A = A} (suc attempts) m quiet h =
      >>=-AddsAt_quiet P 0 _ _ h (attempt-AddsAt P 0 m h (quiet h))
        λ res next e. decide (retry-AddsAt attempts m quiet) res next
    where
      decide :
          Silent (retry attempts m)
          → (res : PeggyError ⊎ A) (next : History)
          → AddsAt P 0 (retry_or (retry attempts m) res) next
      decide again (inl x) next = again next
      decide again (inr a) next = pure-AddsAt P _ next

  module _ (o : Oracle) where
    next_window-AddsAt :
        (next_round : Io (Option ℕ)) (found : Option ℕ)
        → Silent next_round
        → Silent (next_window o next_round found)
    unfolding next_window
    next_window-AddsAt next_round (some block) later h = pure-AddsAt P _ h
    next_window-AddsAt next_round none later h = later h

    search_answers-AddsAt :
        (nonce : ℕ) (again next_round : Io (Option ℕ))
        (batches deposits transfers : PeggyError ⊎ List Log)
        → Silent again
        → Silent next_round
        → Silent (search_answers o nonce again next_round batches deposits transfers)
    unfolding search_answers
    search_answers-AddsAt nonce again next_round (inr b) (inr d) (inr t) same later h =
        >>=-AddsAt_quiet P 0 _ _ h (pure-AddsAt P _ h)
          λ found next e. next_window-AddsAt next_round found later next
    search_answers-AddsAt nonce again next_round (inl x) d t same later h = same h
    search_answers-AddsAt nonce again next_round (inr b) (inl x) t same later h = same h
    search_answers-AddsAt nonce again next_round (inr b) (inr d) (inl x) same later h = same h

    event_round-AddsAt :
        (nonce current_block : ℕ) (again next_round : Io (Option ℕ))
        → Silent again
        → Silent next_round
        → Silent (event_round o nonce current_block again next_round)
    unfolding event_round
    event_round-AddsAt nonce current_block again next_round same later h =
        >>=-AddsAt_quiet P 0 _ _ h (get_events-AddsAt P o _ _ _ h) λ batches h₁ e₁.
          >>=-AddsAt_quiet P 0 _ _ h₁ (get_events-AddsAt P o _ _ _ h₁) λ deposits h₂ e₂.
            >>=-AddsAt_quiet P 0 _ _ h₂ (get_events-AddsAt P o _ _ _ h₂) λ transfers h₃ e₃.
              search_answers-AddsAt nonce again next_round batches deposits transfers same later h₃

    search_events-AddsAt :
        (rounds nonce current_block : ℕ) → Silent (search_events o rounds nonce current_block)
    unfolding search_events
    search_events-AddsAt zero nonce current_block h = pure-AddsAt P _ h
    search_events-AddsAt (suc rounds) nonce current_block h =
        elim (Bool-cases (current_block == 0)) [
          | inl stop ↦ rw stop (pure-AddsAt P _ h)
          | inr go ↦ rw go (
              event_round-AddsAt nonce current_block _ _
                (search_events-AddsAt rounds nonce current_block)
                (search_events-AddsAt rounds nonce (window_start current_block)) h)
        ]

    search_from-AddsAt :
        (rounds latest_block : ℕ) (found : Option ℕ)
        → Silent (search_from o rounds latest_block found)
    unfolding search_from
    search_from-AddsAt rounds latest_block none h = pure-AddsAt P _ h
    search_from-AddsAt rounds latest_block (some nonce) h = elim (Bool-cases (nonce == 0)) [
      | inl first ↦ rw first (pure-AddsAt P _ h)
      | inr later ↦ rw later (search_events-AddsAt rounds nonce latest_block h)
    ]

    resync_from-AddsAt :
        (rounds : ℕ) (us : CosmosAddress) (found : Option ℕ)
        → Silent (resync_from o rounds us found)
    unfolding resync_from get_last_event_nonce_with_retry
    resync_from-AddsAt rounds us none h = pure-AddsAt P _ h
    resync_from-AddsAt rounds us (some newest) h =
        >>=-AddsAt_quiet P 0 _ _ h (pure-AddsAt P _ h) λ latest_block h₁ e₁.
          >>=-AddsAt_quiet P 0 _ _ h₁
            (retry-AddsAt rounds _ (get_last_event_nonce-AddsAt P o us) h₁)
            λ found h₂ e₂. search_from-AddsAt rounds latest_block found h₂

    pub get_last_checked_block-AddsAt :
        (rounds : ℕ) (us : CosmosAddress) → Silent (get_last_checked_block o rounds us)
    unfolding get_last_checked_block get_block_number_with_retry
    get_last_checked_block-AddsAt rounds us h =
        >>=-AddsAt_quiet P 0 _ _ h (retry-AddsAt rounds _ (get_newest_block-AddsAt P o) h)
          λ found next e. resync_from-AddsAt rounds us found next
