-- ===== src/Resync/Locating.antt =====
-- What the resync has found when it returns a block.
use minter_hub.Error.{PeggyError}
use minter_hub.Events.{Log}
use minter_hub.Io.{History}
use minter_hub.Oracle.{Oracle, get_events}
use minter_hub.Oracle.Watching.{batch_signature, hub_signature, minter_signature}
use minter_hub.Outcome.{>>=-parts, Outcome, bind_outcome, err, ok, panic}
use minter_hub.Prelude.{
  All, Bool-cases, List, Option, [], arith, inl, inr, none, refl, some, ℕ, ◌==◌, ◌∙◌, ◌∷◌, ◌≡◌, ◌⊎◌,
}
use minter_hub.Resync.{
  batch_nonce_of, check_event, deposit_nonce_of, find_event, matched_block, return_or,
  search_window, transfer_nonce_of, window_start,
}

-- A log with the nonce and the block.
abbrev pub Reports : (Log → Outcome PeggyError ℕ) → ℕ → ℕ → Log → Type 0
Reports nonce_of nonce block event = (nonce_of event ≡ ok nonce) × (event.block_number ≡ some block)

-- One of the logs is such a log.
unfoldable pub Any : (Log → Type 0) → List Log → Type 0
Any P [] = ⊥
Any P (event ∷ rest) = P event ⊎ Any P rest

-- None of the logs has the nonce together with a block.
unfoldable pub Unreported : (Log → Outcome PeggyError ℕ) → ℕ → List Log → Type 0
Unreported nonce_of nonce events =
    All (λ event. (block : ℕ) → ¬ (Reports nonce_of nonce block event)) events

module _ (nonce_of : Log → Outcome PeggyError ℕ) (nonce : ℕ) where
  check_event-some :
      (number : Option ℕ) (parsed : Outcome PeggyError ℕ) (block : ℕ)
      → check_event nonce number parsed ≡ ok (some block)
      → (parsed ≡ ok nonce) × (number ≡ some block)
  unfolding check_event matched_block
  check_event-some number (ok n) block e = elim (Bool-cases (n == nonce)) [
    | inl same ↦ ground arith
    | inr other ↦ ground arith
  ]
  check_event-some number (err x) block e = cc
  check_event-some number panic block e = cc

  check_event-none :
      (number : Option ℕ) (parsed : Outcome PeggyError ℕ)
      → check_event nonce number parsed ≡ ok none
      → (block : ℕ) → ¬ ((parsed ≡ ok nonce) × (number ≡ some block))
  unfolding check_event matched_block
  check_event-none number (ok n) e block p = ground (arith, p.0, p.1)
  check_event-none number (err x) e block p = cc
  check_event-none number panic e block p = cc

  pub find_event-some :
      (events : List Log) (block : ℕ)
      → find_event nonce_of nonce events ≡ ok (some block)
      → Any (Reports nonce_of nonce block) events
  unfolding find_event return_or Any
  find_event-some [] block e = cc
  find_event-some (event ∷ rest) block e =
      let (found, p, q) = >>=-parts (check_event nonce event.block_number (nonce_of event)) _ e in
      decide (find_event-some rest block) found p q
    where
      decide :
          (find_event nonce_of nonce rest ≡ ok (some block)
            → Any (Reports nonce_of nonce block) rest)
          → (found : Option ℕ) → check_event nonce event.block_number (nonce_of event) ≡ ok found
          → return_or (find_event nonce_of nonce rest) found ≡ ok (some block)
          → Reports nonce_of nonce block event ⊎ Any (Reports nonce_of nonce block) rest
      decide later none p q = inr (later q)
      decide later (some b) p q =
          inl (check_event-some event.block_number (nonce_of event) block (p ∙ q))

  pub find_event-none :
      (events : List Log)
      → find_event nonce_of nonce events ≡ ok none
      → Unreported nonce_of nonce events
  unfolding find_event return_or Unreported
  find_event-none [] e = tt
  find_event-none (event ∷ rest) e =
      let (found, p, q) = >>=-parts (check_event nonce event.block_number (nonce_of event)) _ e in
      decide (find_event-none rest) found p q
    where
      decide :
          (find_event nonce_of nonce rest ≡ ok none → Unreported nonce_of nonce rest)
          → (found : Option ℕ) → check_event nonce event.block_number (nonce_of event) ≡ ok found
          → return_or (find_event nonce_of nonce rest) found ≡ ok none
          → Unreported nonce_of nonce (event ∷ rest)
      decide later none p q = (check_event-none event.block_number (nonce_of event) p, later q)
      decide later (some b) p q = cc

-- `None` or the early `return`, of two searches in turn.
return_or-none :
    (m others : Outcome PeggyError (Option ℕ))
    → bind_outcome m (return_or others) ≡ ok none
    → (m ≡ ok none) × (others ≡ ok none)
unfolding return_or
return_or-none (ok none) others e = (refl, e)
return_or-none (ok (some b)) others e = cc
return_or-none (err x) others e = cc
return_or-none panic others e = cc

return_or-some :
    (m others : Outcome PeggyError (Option ℕ)) (block : ℕ)
    → bind_outcome m (return_or others) ≡ ok (some block)
    → (m ≡ ok (some block)) ⊎ (m ≡ ok none) × (others ≡ ok (some block))
unfolding return_or
return_or-some (ok none) others block e = inr (refl, e)
return_or-some (ok (some b)) others block e = inl e
return_or-some (err x) others block e = cc
return_or-some panic others block e = cc

module _ (o : Oracle) (nonce : ℕ) where
  -- One of the logs of a window is an event with the nonce, in the block.
  unfoldable pub WindowReports : ℕ → List Log → List Log → List Log → Type 0
  WindowReports block batches deposits transfers =
      Any (Reports (batch_nonce_of o) nonce block) batches
      ⊎ Any (Reports (deposit_nonce_of o) nonce block) deposits
      ⊎ Any (Reports (transfer_nonce_of o) nonce block) transfers

  -- None of them is.
  unfoldable pub WindowLacks : List Log → List Log → List Log → Type 0
  WindowLacks batches deposits transfers =
      Unreported (batch_nonce_of o) nonce batches
      × Unreported (deposit_nonce_of o) nonce deposits
      × Unreported (transfer_nonce_of o) nonce transfers

  pub search_window-some :
      (block : ℕ) (batches deposits transfers : List Log)
      → search_window o nonce batches deposits transfers ≡ ok (some block)
      → WindowReports block batches deposits transfers
  unfolding search_window WindowReports
  search_window-some block batches deposits transfers e =
      elim (return_or-some (find_event (batch_nonce_of o) nonce batches) _ block e) [
        | inl p ↦ inl (find_event-some _ _ batches block p)
        | inr (p, q) ↦
            elim (return_or-some (find_event (deposit_nonce_of o) nonce deposits) _ block q) [
              | inl r ↦ inr (inl (find_event-some _ _ deposits block r))
              | inr (r, s) ↦ inr (inr (find_event-some _ _ transfers block s))
            ]
      ]

  pub search_window-none :
      (batches deposits transfers : List Log)
      → search_window o nonce batches deposits transfers ≡ ok none
      → WindowLacks batches deposits transfers
  unfolding search_window WindowLacks
  search_window-none batches deposits transfers e =
      let (p, q) = return_or-none (find_event (batch_nonce_of o) nonce batches) _ e in
      let (r, s) = return_or-none (find_event (deposit_nonce_of o) nonce deposits) _ q in
      (
        find_event-none _ _ batches p,
        find_event-none _ _ deposits r,
        find_event-none _ _ transfers s,
      )

  -- The node answered with these logs for the window that ends at a block.
  unfoldable pub Answered : ℕ → List Log → List Log → List Log → Type 0
  Answered current_block batches deposits transfers =
      (h₁ : History) × (h₂ : History) × (h₃ : History) × ((get_events o (window_start current_block)
          current_block (batch_signature o) h₁).0
        ≡ ok batches)
      × ((get_events o (window_start current_block) current_block (hub_signature o) h₂).0
          ≡ ok deposits)
      × ((get_events o (window_start current_block) current_block (minter_signature o) h₃).0
          ≡ ok transfers)

  -- The search from a block reaches an event with the nonce: it is in a window, and in no window
  -- before that one.
  pub data Located (block : ℕ) : ℕ → Type 0 where
    here :
        {current_block : ℕ} (batches deposits transfers : List Log)
        → Answered current_block batches deposits transfers
        → WindowReports block batches deposits transfers
        → Located block current_block
    further :
        {current_block : ℕ} (batches deposits transfers : List Log)
        → Answered current_block batches deposits transfers
        → WindowLacks batches deposits transfers
        → Located block (window_start current_block)
        → Located block current_block
