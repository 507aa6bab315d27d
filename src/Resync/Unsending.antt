-- ===== src/Resync/Unsending.antt =====
-- The resync sends no transaction to Ethereum.
use minter_hub.Error.{PeggyError}
use minter_hub.Events.{Log}
use minter_hub.Io.{Io}
use minter_hub.Io.Sending.{>>=-IsQuiet, IsQuiet, attempt-IsQuiet, if-IsQuiet, pure-IsQuiet}
use minter_hub.Oracle.{Oracle}
use minter_hub.Oracle.Unsending.{
  get_events-IsQuiet, get_last_event_nonce-IsQuiet, get_newest_block-IsQuiet,
}
use minter_hub.Prelude.{List, Option, inl, inr, none, some, suc, zero, ℕ, ◌==◌, ◌⊎◌}
use minter_hub.Resync.{
  event_round, get_block_number_with_retry, get_last_checked_block, get_last_event_nonce_with_retry,
  next_window, resync_from, retry, retry_or, search_answers, search_events, search_from,
  window_start,
}
use minter_hub.Valset.{CosmosAddress}

retry-IsQuiet : {A : Type 0} (attempts : ℕ) (m : Io A) → IsQuiet m → IsQuiet (retry attempts m)
unfolding retry retry_or
retry-IsQuiet zero m quiet = pure-IsQuiet _
retry-IsQuiet {A = A} (suc attempts) m quiet =
    >>=-IsQuiet _ _ (attempt-IsQuiet m quiet) (decide (retry-IsQuiet attempts m quiet))
  where
    decide :
        IsQuiet (retry attempts m)
        → (res : PeggyError ⊎ A) → IsQuiet (retry_or (retry attempts m) res)
    decide again (inl x) = again
    decide again (inr a) = pure-IsQuiet _

module _ (o : Oracle) where
  next_window-IsQuiet :
      (next_round : Io (Option ℕ)) (found : Option ℕ)
      → IsQuiet next_round
      → IsQuiet (next_window o next_round found)
  unfolding next_window
  next_window-IsQuiet next_round (some block) later = pure-IsQuiet _
  next_window-IsQuiet next_round none later = later

  search_answers-IsQuiet :
      (nonce : ℕ) (again next_round : Io (Option ℕ))
      (batches deposits transfers : PeggyError ⊎ List Log)
      → IsQuiet again
      → IsQuiet next_round
      → IsQuiet (search_answers o nonce again next_round batches deposits transfers)
  unfolding search_answers
  search_answers-IsQuiet nonce again next_round (inr b) (inr d) (inr t) same later =
      >>=-IsQuiet _ _ (pure-IsQuiet _) λ found. next_window-IsQuiet next_round found later
  search_answers-IsQuiet nonce again next_round (inl x) d t same later = same
  search_answers-IsQuiet nonce again next_round (inr b) (inl x) t same later = same
  search_answers-IsQuiet nonce again next_round (inr b) (inr d) (inl x) same later = same

  search_events-IsQuiet :
      (rounds nonce current_block : ℕ) → IsQuiet (search_events o rounds nonce current_block)
  unfolding search_events event_round
  search_events-IsQuiet zero nonce current_block = pure-IsQuiet _
  search_events-IsQuiet (suc rounds) nonce current_block =
      if-IsQuiet (current_block == 0) _ _ (pure-IsQuiet _) (
        >>=-IsQuiet _ _ (get_events-IsQuiet o _ _ _) λ batches.
          >>=-IsQuiet _ _ (get_events-IsQuiet o _ _ _) λ deposits.
            >>=-IsQuiet _ _ (get_events-IsQuiet o _ _ _) λ transfers.
              search_answers-IsQuiet nonce _ _ batches deposits transfers
                (search_events-IsQuiet rounds nonce current_block)
                (search_events-IsQuiet rounds nonce (window_start current_block)))

  resync_from-IsQuiet :
      (rounds : ℕ) (us : CosmosAddress) (found : Option ℕ) → IsQuiet (resync_from o rounds us found)
  unfolding resync_from get_last_event_nonce_with_retry search_from
  resync_from-IsQuiet rounds us none = pure-IsQuiet _
  resync_from-IsQuiet rounds us (some newest) = >>=-IsQuiet _ _ (pure-IsQuiet _) λ latest_block.
      >>=-IsQuiet _ _ (retry-IsQuiet rounds _ (get_last_event_nonce-IsQuiet o us))
        (from_nonce latest_block)
    where
      from_nonce :
          (latest_block : ℕ) (found : Option ℕ) → IsQuiet (search_from o rounds latest_block found)
      from_nonce latest_block none = pure-IsQuiet _
      from_nonce latest_block (some nonce) =
          if-IsQuiet (nonce == 0) _ _ (pure-IsQuiet _)
            (search_events-IsQuiet rounds nonce latest_block)

  pub get_last_checked_block-IsQuiet :
      (rounds : ℕ) (us : CosmosAddress) → IsQuiet (get_last_checked_block o rounds us)
  unfolding get_last_checked_block get_block_number_with_retry
  get_last_checked_block-IsQuiet rounds us =
      >>=-IsQuiet _ _ (retry-IsQuiet rounds _ (get_newest_block-IsQuiet o))
        (resync_from-IsQuiet rounds us)
