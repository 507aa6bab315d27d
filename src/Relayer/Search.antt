-- ===== src/Relayer/Search.antt =====
-- The search for the current validator set ends, and finds the newest event.
use minter_hub.Events.{Log}
use minter_hub.Io.{History, Io, pure}
use minter_hub.Outcome.{ok, panic}
use minter_hub.Prelude.{
  Bool-cases, List, Option, ap, arith, false, inl, inr, none, refl, some, suc, sym, zero, ℕ, ◌<◌,
  ◌==◌, ◌∙◌, ◌≡◌, ◌≤◌,
}
use minter_hub.Relayer.{Relayer, end_search, get_window, newest_update, search_blocks, search_round}
use minter_hub.Valset.{Valset}

end_search-less : (n : ℕ) → (n == 0) ≡ false → end_search n < n
unfolding end_search
end_search-less n h = ground arith

module _ (r : Relayer) where
  stopped : (rounds : ℕ) (cosmos : Option Valset) → search_blocks r rounds cosmos 0 ≡ pure panic
  unfolding search_blocks
  stopped zero cosmos = refl
  stopped (suc rounds) cosmos = refl

  one_round :
      (rounds : ℕ) (cosmos : Option Valset) (current_block : ℕ)
      → (current_block == 0) ≡ false
      → search_blocks r (suc rounds) cosmos current_block
        ≡ search_round r cosmos
            (search_blocks r rounds cosmos (end_search current_block))
            current_block
  unfolding search_blocks
  one_round rounds cosmos current_block go = rw go refl

  -- With any two numbers of rounds that are not below the block, the search runs the same, so the
  -- number that `find_latest_valset` allows is enough for its loop to end.
  pub search_blocks-enough :
      (rounds others : ℕ) (cosmos : Option Valset) (current_block : ℕ)
      → current_block ≤ rounds
      → current_block ≤ others
      → search_blocks r rounds cosmos current_block ≡ search_blocks r others cosmos current_block
  search_blocks-enough zero others cosmos current_block h k =
      let e : current_block ≡ 0 = omega arith in
      rw e (stopped 0 cosmos ∙ sym (stopped others cosmos))
  search_blocks-enough (suc rounds) zero cosmos current_block h k =
      let e : current_block ≡ 0 = omega arith in
      rw e (stopped (suc rounds) cosmos ∙ sym (stopped 0 cosmos))
  search_blocks-enough (suc rounds) (suc others) cosmos current_block h k =
      elim (Bool-cases (current_block == 0)) [
        | inl stop ↦
            let e : current_block ≡ 0 = ground arith in
            rw e (stopped (suc rounds) cosmos ∙ sym (stopped (suc others) cosmos))
        | inr go ↦
            one_round rounds cosmos current_block go
            ∙ ap (λ next. search_round r cosmos next current_block)
                (search_blocks-enough rounds others cosmos (end_search current_block)
                  (omega (arith, end_search-less current_block go))
                  (omega (arith, end_search-less current_block go)))
            ∙ sym (one_round others cosmos current_block go)
      ]

  -- The search from a block and a history reaches the set: the newest event of a window holds it,
  -- and no window before it has a newest event that parses.
  pub data Searched (valset : Valset) : ℕ → History → Type 0 where
    here :
        {current_block : ℕ} {h : History} (events : List Log)
        → (current_block == 0) ≡ false
        → (get_window r current_block h).0 ≡ ok events
        → newest_update r events ≡ ok (some valset)
        → Searched valset current_block h
    further :
        {current_block : ℕ} {h : History} (events : List Log)
        → (current_block == 0) ≡ false
        → (get_window r current_block h).0 ≡ ok events
        → newest_update r events ≡ ok none
        → Searched valset (end_search current_block) ((get_window r current_block h).1)
        → Searched valset current_block h
