-- ===== src/Waiting/Ending.antt =====
-- The waits end within their timeouts, and only behind new blocks.
use Prim.Native.String.{String}
use minter_hub.Error.{PeggyError}
use minter_hub.Io.{
  History, Io, Request, attempt, caught, continue, expect, perform, pure, ◌>>=◌, ◌>>◌,
}
use minter_hub.Outcome.{Outcome, err, map_err, ok, panic, unwrap_result}
use minter_hub.Prelude.{
  ==_iff, Bool-cases, Option, arith, false, inl, inr, ltb, refl, some, suc, zero, ℕ, ◌*◌, ◌+◌, ◌-◌,
  ◌<◌, ◌==◌, ◌∷◌, ◌≡◌, ◌≤◌, ◌⊎◌,
}
use minter_hub.Waiting.{
  CosmosChain, delay_second, get_latest_block, read_now, then_wait, unless_late,
  wait_for_cosmos_online, wait_for_next_cosmos_block, wait_for_two_blocks, wait_while_failed,
  wait_while_same,
}
use native.Mathlib.Decide.{ℕ_discrete}

-- The clock does not go back, and a delay of a second takes one.
pub record Ticks (c : CosmosChain) : Type 0 where
  pub onward : (request : Request) (h : History) → c.now h ≤ c.now (request ∷ h)
  pub delays : (h : History) → c.now h + 1000 ≤ c.now (Request.delay 1000 ∷ h)

-- It has panicked, or it has ended with a history as stated.
unfoldable pub Finishes :
    (History → Type 0) → Outcome PeggyError (Option (Unit {0})) × History → Type 0
Finishes Q res = (res.0 ≡ panic) ⊎ ((res.0 ≡ ok (some tt)) × Q res.1)

map-Finishes :
    (P Q : History → Type 0) (res : Outcome PeggyError (Option (Unit {0})) × History)
    → ((end : History) → P end → Q end)
    → Finishes P res
    → Finishes Q res
unfolding Finishes
map-Finishes P Q res f (inl e) = inl e
map-Finishes P Q res f (inr (e, p)) = inr (e, f res.1 p)

module _ (c : CosmosChain) where
  -- From a history to its end, two different heights were answered: one at the start of a wait, and
  -- one at its end.
  abbrev pub IsNext : History → History → Type 0
  IsNext h end =
      (asked : History) × (first : ℕ) × (next : ℕ) × (c.latest_height (Request.read_clock ∷ h)
        ≡ ok first)
      × (c.latest_height asked ≡ ok next)
      × ¬ (first ≡ next)
      × (end ≡ Request.latest_cosmos_block ∷ asked)

  -- Two waits for another height, one behind the other.
  abbrev pub TwoBlocks : History → Type 0
  TwoBlocks end = (online : History) × (middle : History) × IsNext online middle × IsNext middle end

  module _ (Q : History → Type 0) where
    block-Finishes :
        (f : ℕ → Io (Option (Unit {0}))) (h : History)
        → ((height : ℕ)
            → c.latest_height h ≡ ok height
            → Finishes Q (f height (Request.latest_cosmos_block ∷ h)))
        → Finishes Q ((expect (get_latest_block c) >>= f) h)
    unfolding expect get_latest_block perform ◌>>=◌ continue Finishes
    block-Finishes f h k = of_answer (c.latest_height h) k
      where
        of_answer :
            (answer : Outcome String ℕ)
            → ((height : ℕ)
                → answer ≡ ok height
                → Finishes Q (f height (Request.latest_cosmos_block ∷ h)))
            → Finishes Q (
                continue f (
                  unwrap_result (map_err PeggyError.cosmos_rest_error answer),
                  Request.latest_cosmos_block ∷ h,
                ))
        of_answer (ok height) k = k height refl
        of_answer (err e) k = inl refl
        of_answer panic k = inl refl

    attempt-Finishes :
        (f : PeggyError ⊎ ℕ → Io (Option (Unit {0}))) (h : History)
        → ((res : PeggyError ⊎ ℕ) → Finishes Q (f res (Request.latest_cosmos_block ∷ h)))
        → Finishes Q ((attempt (get_latest_block c) >>= f) h)
    unfolding attempt caught get_latest_block perform ◌>>=◌ continue Finishes
    attempt-Finishes f h k = of_answer (c.latest_height h)
      where
        of_answer :
            (answer : Outcome String ℕ)
            → Finishes Q (
                continue f (
                  caught
                    (map_err PeggyError.cosmos_rest_error answer, Request.latest_cosmos_block ∷ h)))
        of_answer (ok height) = k (inr height)
        of_answer (err e) = k (inl (PeggyError.cosmos_rest_error e))
        of_answer panic = inl refl

    unless_late-Finishes :
        (start timeout : ℕ) (next_round : Io (Option (Unit {0}))) (h : History)
        → (c.now h - start ≤ timeout → Finishes Q (next_round (Request.read_clock ∷ h)))
        → Finishes Q (unless_late c start timeout next_round h)
    unfolding unless_late read_now ◌>>=◌ continue pure Finishes
    unless_late-Finishes start timeout next_round h k =
        elim (Bool-cases (ltb timeout (c.now h - start))) [
          | inl late ↦ inl (rw late refl)
          | inr early ↦ rw early (k (ground arith))
        ]

    then-Finishes :
        (R : History → Type 0) (m : Io (Option (Unit {0})))
        (f : Option (Unit {0}) → Io (Option (Unit {0}))) (h : History)
        → Finishes R (m h)
        → ((next : History) → R next → Finishes Q (f (some tt) next))
        → Finishes Q ((m >>= f) h)
    unfolding ◌>>=◌ continue Finishes
    then-Finishes R m f h p k = of_result (m h) p
      where
        of_result :
            (res : Outcome PeggyError (Option (Unit {0})) × History)
            → Finishes R res
            → Finishes Q (continue f res)
        of_result (result, next) (inl e) = rw e (inl refl)
        of_result (result, next) (inr (e, r)) = rw e (k next r)

    -- The waits end when they are given more rounds than the timeout has seconds.
    module _ (t : Ticks c) (start timeout : ℕ) where
      -- A delay of a second, the check of the time, and the next round.
      delayed-Finishes :
          (next_round : Io (Option (Unit {0}))) (h : History) (time : ℕ)
          → time ≤ c.now h
          → ((next : History) (later : ℕ)
              → time + 1000 ≤ later
              → later ≤ start + timeout
              → later ≤ c.now next
              → Finishes Q (next_round next))
          → Finishes Q ((delay_second c >> unless_late c start timeout next_round) h)
      unfolding delay_second ◌>>=◌ continue
      delayed-Finishes next_round h time p k =
          unless_late-Finishes start timeout next_round (Request.delay 1000 ∷ h) λ early.
            k _ (c.now (Request.delay 1000 ∷ h)) (omega (arith, t.delays h)) (omega arith)
              (t.onward Request.read_clock (Request.delay 1000 ∷ h))

module _ (c : CosmosChain) (t : Ticks c) (start timeout : ℕ) where
  -- It has ended when another height was answered.
  abbrev Changed : ℕ → History → Type 0
  Changed current_block end =
      (asked : History) × (next : ℕ) × (c.latest_height asked ≡ ok next)
      × ¬ (current_block ≡ next)
      × (end ≡ Request.latest_cosmos_block ∷ asked)

  wait_while_same-Finishes :
      (rounds current_block time : ℕ) (h : History)
      → time ≤ c.now h
      → time ≤ start + timeout
      → start + timeout < time + 1000 * rounds
      → Finishes (Changed current_block) (wait_while_same c rounds start timeout current_block h)
  unfolding wait_while_same Finishes pure
  wait_while_same-Finishes zero current_block time h p q enough = absurd (omega arith)
  wait_while_same-Finishes (suc rounds) current_block time h p q enough =
      block-Finishes c (Changed current_block) _ h λ height answered.
        elim (ℕ_discrete current_block height) [
          | yes same ↦ rw ((==_iff current_block height).1 same) (
              delayed-Finishes c (Changed current_block) t start timeout _ _ time
                (omega (arith, t.onward Request.latest_cosmos_block h))
                λ next later more within seen.
                  wait_while_same-Finishes rounds current_block later next seen within
                    (omega arith))
          | no other ↦
              let differ : (current_block == height) ≡ false = ground arith in
              rw differ (inr (refl, (h, height, answered, other, refl)))
        ]

  module _ (Q : History → Type 0) (rest : Io (Option (Unit {0})))
      (goes_on : (next : History) → Finishes Q (rest next)) where
    wait_while_failed-Finishes :
        (rounds time : ℕ) (res : PeggyError ⊎ ℕ) (h : History)
        → time ≤ c.now h
        → time ≤ start + timeout
        → start + timeout < time + 1000 * rounds
        → Finishes Q (wait_while_failed c rounds start timeout rest res h)
    unfolding wait_while_failed delay_second ◌>>=◌ continue
    wait_while_failed-Finishes rounds time (inr height) h p q enough = goes_on h
    wait_while_failed-Finishes zero time (inl e) h p q enough = absurd (omega arith)
    wait_while_failed-Finishes (suc rounds) time (inl e) h p q enough =
        attempt-Finishes c Q _ (Request.delay 1000 ∷ h) λ res.
          unless_late-Finishes c Q start timeout _
            (Request.latest_cosmos_block ∷ Request.delay 1000 ∷ h)
            λ early.
              wait_while_failed-Finishes rounds
                (c.now (Request.latest_cosmos_block ∷ Request.delay 1000 ∷ h)) res _
                (t.onward Request.read_clock _) (omega arith)
                (omega (
                  arith,
                  t.delays h,
                  t.onward Request.latest_cosmos_block (Request.delay 1000 ∷ h),
                ))

module _ (c : CosmosChain) (t : Ticks c) (rounds timeout : ℕ)
    (enough : timeout < 1000 * rounds) where
  wait_for_next_cosmos_block-Finishes :
      (h : History) → Finishes (IsNext c h) (wait_for_next_cosmos_block c rounds timeout h)
  unfolding wait_for_next_cosmos_block read_now ◌>>=◌ continue
  wait_for_next_cosmos_block-Finishes h =
      block-Finishes c (IsNext c h) _ (Request.read_clock ∷ h) λ first answered.
        map-Finishes (Changed c t (c.now h) timeout first) (IsNext c h) _
          (λ end (asked, next, q, differ, e). (asked, first, next, answered, q, differ, e))
          (wait_while_same-Finishes c t (c.now h) timeout rounds first (c.now h) _
            (omega (
              arith,
              t.onward Request.read_clock h,
              t.onward Request.latest_cosmos_block (Request.read_clock ∷ h),
            ))
            (omega arith) (omega arith))

  wait_for_two_blocks-Finishes :
      (h : History) → Finishes (TwoBlocks c) (wait_for_two_blocks c rounds timeout h)
  unfolding wait_for_two_blocks then_wait
  wait_for_two_blocks-Finishes h =
      then-Finishes c (TwoBlocks c) (IsNext c h) _ _ h (wait_for_next_cosmos_block-Finishes h)
        λ middle first.
          map-Finishes (IsNext c middle) (TwoBlocks c) _ (λ end second. (h, middle, first, second))
            (wait_for_next_cosmos_block-Finishes middle)

  -- If the clock does not go back, a delay of a second takes one, and the rounds are more than the
  -- seconds of the timeout, then no loop of `wait_for_cosmos_online` is left unfinished: it panics, or
  -- it returns behind two waits, in each of which the chain answered a height and later another one.
  pub wait_for_cosmos_online-Finishes :
      (h : History) → Finishes (TwoBlocks c) (wait_for_cosmos_online c rounds timeout h)
  unfolding wait_for_cosmos_online read_now ◌>>=◌ continue
  wait_for_cosmos_online-Finishes h =
      attempt-Finishes c (TwoBlocks c) _ (Request.read_clock ∷ h) λ res.
        wait_while_failed-Finishes c t (c.now h) timeout (TwoBlocks c)
          (wait_for_two_blocks c rounds timeout) wait_for_two_blocks-Finishes rounds (c.now h) res _
          (omega (
            arith,
            t.onward Request.read_clock h,
            t.onward Request.latest_cosmos_block (Request.read_clock ∷ h),
          ))
          (omega arith) (omega arith)
