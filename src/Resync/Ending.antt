-- ===== src/Resync/Ending.antt =====
-- The resync ends: with enough attempts it returns a block or panics, once the nodes answer.
use Prim.Native.String.{String}
use minter_hub.Error.{PeggyError}
use minter_hub.Events.{Log}
use minter_hub.Io.{History, Io, Request, attempt, ◌>>=◌}
use minter_hub.Oracle.{Oracle, get_events, get_last_event_nonce, get_newest_block}
use minter_hub.Oracle.Watching.{sub-ok}
use minter_hub.Outcome.{Outcome, bind_outcome, err, ok, panic, unwrap}
use minter_hub.Prelude.{
  Bool-cases, List, Option, [], arith, false, inl, inr, length, none, refl, some, suc, zero, ℕ, ◌+◌,
  ◌<◌, ◌==◌, ◌∷◌, ◌≡◌, ◌≤◌, ◌⊎◌,
}
use minter_hub.Resync.{
  check_event, event_round, find_event, get_block_number_with_retry, get_last_checked_block,
  get_last_event_nonce_with_retry, next_window, resync_from, return_or, search_answers,
  search_events, search_from, search_window, window_start,
}
use minter_hub.Resync.Retrying.{
  AnswersAfter, HasEnded, Replies, Settles, call-HasEnded, failed-early, panicked, pure-HasEnded,
  retry-HasEnded, returned,
}
use minter_hub.Valset.{CosmosAddress}

window_start-less : (n : ℕ) → (n == 0) ≡ false → window_start n < n
unfolding window_start
window_start-less n h = ground arith

check_event-Settles :
    (nonce : ℕ) (block : Option ℕ) (parsed : Outcome PeggyError ℕ)
    → Settles (check_event nonce block parsed)
unfolding check_event Settles
check_event-Settles nonce block (ok n) = tt
check_event-Settles nonce block (err e) = tt
check_event-Settles nonce block panic = tt

return_or-Settles :
    (m others : Outcome PeggyError (Option ℕ))
    → Settles m
    → Settles others
    → Settles (bind_outcome m (return_or others))
unfolding return_or Settles
return_or-Settles (ok none) others s t = t
return_or-Settles (ok (some b)) others s t = tt
return_or-Settles (err e) others s t = s
return_or-Settles panic others s t = tt

find_event-Settles :
    (nonce_of : Log → Outcome PeggyError ℕ) (nonce : ℕ) (events : List Log)
    → Settles (find_event nonce_of nonce events)
unfolding find_event Settles
find_event-Settles nonce_of nonce [] = tt
find_event-Settles nonce_of nonce (event ∷ rest) =
    return_or-Settles _ _ (check_event-Settles nonce event.block_number (nonce_of event))
      (find_event-Settles nonce_of nonce rest)

module _ (o : Oracle) (silent : ℕ)
    (logs_answer : (start end : ℕ) (signature : String)
      → AnswersAfter silent
          (λ h. o.world.check_for_events h start end o.peggy_contract_address signature)) where
  -- A query of logs, with what follows it.
  events-HasEnded :
      (start end : ℕ) (signature : String) (f : PeggyError ⊎ List Log → Io (Option ℕ)) (h : History)
      → ((res : PeggyError ⊎ List Log) (next : History)
          → length next ≡ suc (length h)
          → ((events : List Log) × (res ≡ inr events)) ⊎ (length h < silent)
          → HasEnded ((f res next).0))
      → HasEnded (((attempt (get_events o start end signature) >>= f) h).0)
  unfolding get_events
  events-HasEnded start end signature f h k =
      call-HasEnded _ _ _ f h λ res replied. decide res replied
    where
      decide :
          (res : PeggyError ⊎ List Log)
          → Replies PeggyError.ethereum_rest_error
              (o.world.check_for_events h start end o.peggy_contract_address signature)
              res
          → HasEnded ((f res (Request.get_logs start end o.peggy_contract_address signature ∷ h)).0)
      decide res (inl (events, p, q)) = k res _ refl (inl (events, q))
      decide res (inr (e, p, q)) =
          k res _ refl (inr (failed-early _ silent (logs_answer start end signature) h e p))

  search_window-Settles :
      (nonce : ℕ) (batches deposits transfers : List Log)
      → Settles (search_window o nonce batches deposits transfers)
  unfolding search_window
  search_window-Settles nonce batches deposits transfers =
      return_or-Settles _ _ (find_event-Settles _ nonce batches) (
        return_or-Settles _ _ (find_event-Settles _ nonce deposits)
          (find_event-Settles _ nonce transfers))

  next_window-HasEnded :
      (next_round : Io (Option ℕ)) (found : Option ℕ) (h : History)
      → HasEnded ((next_round h).0)
      → HasEnded ((next_window o next_round found h).0)
  unfolding next_window
  next_window-HasEnded next_round (some block) h later = returned block h
  next_window-HasEnded next_round none h later = later

  -- Logs, or a failure that the number of calls explains.
  abbrev LogsOr : Type 0 → PeggyError ⊎ List Log → Type 0
  LogsOr early res = ((events : List Log) × (res ≡ inr events)) ⊎ early

  only_early : (early : Type 0) (x : PeggyError) → LogsOr early (inl x) → early
  only_early early x (inl (events, p)) = cc
  only_early early x (inr e) = e

  search_answers-HasEnded :
      (nonce : ℕ) (again next_round : Io (Option ℕ)) (h : History) (early : Type 0)
      (batches deposits transfers : PeggyError ⊎ List Log)
      → LogsOr early batches
      → LogsOr early deposits
      → LogsOr early transfers
      → (early → HasEnded ((again h).0))
      → HasEnded ((next_round h).0)
      → HasEnded ((search_answers o nonce again next_round batches deposits transfers h).0)
  unfolding search_answers
  search_answers-HasEnded nonce again next_round h early (inr b) (inr d) (inr t) pb pd pt same
        later =
      pure-HasEnded _ _ h (search_window-Settles nonce b d t)
        λ found e. next_window-HasEnded next_round found h later
  search_answers-HasEnded nonce again next_round h early (inl x) d t pb pd pt same later =
      same (only_early early x pb)
  search_answers-HasEnded nonce again next_round h early (inr b) (inl x) t pb pd pt same later =
      same (only_early early x pd)
  search_answers-HasEnded nonce again next_round h early (inr b) (inr d) (inl x) pb pd pt same
        later =
      same (only_early early x pt)

  weaken :
      {early late : Type 0} {res : PeggyError ⊎ List Log}
      → (early → late)
      → LogsOr early res
      → LogsOr late res
  weaken f (inl p) = inl p
  weaken f (inr e) = inr (f e)

  event_round-HasEnded :
      (nonce current_block : ℕ) (again next_round : Io (Option ℕ)) (h : History)
      → ((next : History)
          → length next ≡ length h + 3
          → length h < silent
          → HasEnded ((again next).0))
      → ((next : History) → length next ≡ length h + 3 → HasEnded ((next_round next).0))
      → HasEnded ((event_round o nonce current_block again next_round h).0)
  unfolding event_round
  event_round-HasEnded nonce current_block again next_round h same later =
      events-HasEnded _ _ _ _ h λ batches h₁ e₁ b. events-HasEnded _ _ _ _ h₁ λ deposits h₂ e₂ d.
        events-HasEnded _ _ _ _ h₂ λ transfers h₃ e₃ t.
          search_answers-HasEnded nonce again next_round h₃ (length h < silent) batches deposits
            transfers b (weaken (λ e. omega arith) d) (weaken (λ e. omega arith) t)
            (λ early. same h₃ (omega arith) early) (later h₃ (omega arith))

  search_events-HasEnded :
      (rounds nonce current_block : ℕ) (h : History)
      → current_block < rounds
      → silent + current_block < rounds + length h
      → HasEnded ((search_events o rounds nonce current_block h).0)
  unfolding search_events
  search_events-HasEnded zero nonce current_block h p q = absurd (omega arith)
  search_events-HasEnded (suc rounds) nonce current_block h p q =
      elim (Bool-cases (current_block == 0)) [
        | inl stop ↦ rw stop (panicked ℕ h)
        | inr go ↦
            let less = window_start-less current_block go in
            rw go (
              event_round-HasEnded nonce current_block _ _ h
                (λ next e early.
                  search_events-HasEnded rounds nonce current_block next (omega arith)
                    (omega arith))
                (λ next e.
                  search_events-HasEnded rounds nonce (window_start current_block) next
                    (omega arith) (omega arith)))
      ]

-- From a number of calls on, neither node fails, and no block is above a bound.
pub record Recovers (o : Oracle) (us : CosmosAddress) (silent bound : ℕ) : Type 0 where
  pub blocks_answer : AnswersAfter silent o.world.eth_block_number
  pub nonces_answer : AnswersAfter silent (λ h. o.query_last_event_nonce h us)
  pub logs_answer :
      (start end : ℕ) (signature : String)
      → AnswersAfter silent
          (λ h. o.world.check_for_events h start end o.peggy_contract_address signature)
  pub bounded : (h : History) (n : ℕ) → o.world.eth_block_number h ≡ ok n → n ≤ bound

unwrap-Settles : {A : Type 0} (value : Option A) → Settles (unwrap {E = PeggyError} value)
unfolding Settles
unwrap-Settles none = tt
unwrap-Settles (some a) = tt

module _ (o : Oracle) (us : CosmosAddress) (silent bound : ℕ) (r : Recovers o us silent bound) where
  search_from-HasEnded :
      (rounds latest_block nonce : ℕ) (h : History)
      → silent + latest_block < rounds
      → HasEnded ((search_from o rounds latest_block (some nonce) h).0)
  unfolding search_from
  search_from-HasEnded rounds latest_block nonce h p = elim (Bool-cases (nonce == 0)) [
    | inl first ↦ rw first (returned latest_block h)
    | inr later ↦ rw later (
        search_events-HasEnded o silent r.logs_answer rounds nonce latest_block h (omega arith)
          (omega arith))
  ]

  resync_from-HasEnded :
      (rounds newest : ℕ) (h : History)
      → silent + newest < rounds
      → HasEnded ((resync_from o rounds us (some newest) h).0)
  unfolding resync_from get_last_event_nonce_with_retry get_last_event_nonce
  resync_from-HasEnded rounds newest h p =
      pure-HasEnded _ _ h (unwrap-Settles (o.num.sub newest 5)) λ latest_block e.
        let five = sub-ok o.num newest 5 latest_block e in
        retry-HasEnded _ _ _ silent r.nonces_answer rounds _ h (omega arith) (omega arith)
          λ asked next nonce answered.
            search_from-HasEnded rounds latest_block nonce next (omega arith)

  -- The resync ends. When the nodes do not fail from some number of calls on and no block is above a
  -- bound, then with more attempts than both together it returns a block or panics: no loop is left
  -- unfinished.
  pub get_last_checked_block-HasEnded :
      (rounds : ℕ) (h : History)
      → silent + bound < rounds
      → HasEnded ((get_last_checked_block o rounds us h).0)
  unfolding get_last_checked_block get_block_number_with_retry get_newest_block
  get_last_checked_block-HasEnded rounds h p =
      retry-HasEnded _ _ _ silent r.blocks_answer rounds _ h (omega arith) (omega arith)
        λ asked next newest answered.
          resync_from-HasEnded rounds newest next (omega (arith, r.bounded asked newest answered))
