-- ===== src/Io/Interleaving.antt =====
-- Runs side by side, and the messages that they broadcast.
-- The histories of the three loops of the orchestrator, and one in which their calls follow each
-- other in some order.
use minter_hub.Io.{History, Request}
use minter_hub.Io.Broadcasting.{All-append, All-weaken, broadcasts}
use minter_hub.Prelude.{
  All, List, [], ap, arith, inl, inr, length, length-append, refl, subst, sym, ℕ, ◌++◌, ◌+◌, ◌∙◌,
  ◌∷◌, ◌≡◌, ◌⊎◌,
}
use minter_hub.SignMsg.{StdSignMsg}

pub data Interleaved : History → History → History → History → Type 0 where
  no_calls : Interleaved [] [] [] []
  by_oracle :
      {a b c h : History} (request : Request)
      → Interleaved a b c h
      → Interleaved (request ∷ a) b c (request ∷ h)
  by_signer :
      {a b c h : History} (request : Request)
      → Interleaved a b c h
      → Interleaved a (request ∷ b) c (request ∷ h)
  by_relayer :
      {a b c h : History} (request : Request)
      → Interleaved a b c h
      → Interleaved a b (request ∷ c) (request ∷ h)

-- The message that a call broadcasts.
message : Request → List StdSignMsg
message (Request.broadcast msg) = msg ∷ []
message _ = []

broadcasts-cons :
    (request : Request) (h : History) → broadcasts (request ∷ h) ≡ message request ++ broadcasts h
unfolding message broadcasts
broadcasts-cons Request.block_number h = refl
broadcasts-cons Request.gas_price h = refl
broadcasts-cons Request.net_version h = refl
broadcasts-cons (Request.transaction_count a) h = refl
broadcasts-cons (Request.call_contract a b) h = refl
broadcasts-cons (Request.get_logs a b c d) h = refl
broadcasts-cons (Request.estimate_gas a b c) h = refl
broadcasts-cons (Request.send a b c) h = refl
broadcasts-cons (Request.wait_for a) h = refl
broadcasts-cons (Request.erc20_approved a b c) h = refl
broadcasts-cons (Request.approve_erc20 a b c) h = refl
broadcasts-cons (Request.valset_request a) h = refl
broadcasts-cons Request.last_valset_requests h = refl
broadcasts-cons (Request.valset_confirms a) h = refl
broadcasts-cons Request.outgoing_tx_batches h = refl
broadcasts-cons (Request.batch_confirms a b) h = refl
broadcasts-cons (Request.event_nonce_of a) h = refl
broadcasts-cons (Request.pending_valset_of a) h = refl
broadcasts-cons (Request.pending_batch_of a) h = refl
broadcasts-cons Request.current_valset_request h = refl
broadcasts-cons Request.oracle_coins h = refl
broadcasts-cons (Request.account_info a) h = refl
broadcasts-cons Request.latest_cosmos_block h = refl
broadcasts-cons Request.read_clock h = refl
broadcasts-cons (Request.delay a) h = refl
broadcasts-cons (Request.broadcast msg) h = refl

module _ (P Q : StdSignMsg → Type 0) where
  -- One of the two.
  abbrev pub Either : StdSignMsg → Type 0
  Either msg = P msg ⊎ Q msg

  All-split :
      (R : StdSignMsg → Type 0) (xs ys : List StdSignMsg) → All R (xs ++ ys) → All R xs × All R ys
  All-split R [] ys p = (tt, p)
  All-split R (x ∷ xs) ys (p, q) = let (r, s) = All-split R xs ys q in ((p, r), s)

  both_nil : (xs ys : List StdSignMsg) → xs ++ ys ≡ [] → (xs ≡ []) × (ys ≡ [])
  both_nil [] ys e = (refl, e)
  both_nil (x ∷ xs) ys e = cc

  -- A call of one loop adds its message to those of the run.
  add_message :
      (request : Request) (h : History) (k l : ℕ)
      → All Either (message request)
      → All Either (broadcasts h) × (length (broadcasts h) ≡ k)
      → length (message request) + k ≡ l
      → All Either (broadcasts (request ∷ h)) × (length (broadcasts (request ∷ h)) ≡ l)
  add_message request h k l p (all, len) e = rw (broadcasts-cons request h) (
    All-append Either (message request) (broadcasts h) p all,
    omega (arith, length-append (message request) (broadcasts h)),
  )

  nothing_yet :
      All Either (broadcasts [])
      × (length (broadcasts []) ≡ length (broadcasts []) + length (broadcasts []))
  unfolding broadcasts
  nothing_yet = (tt, omega arith)

  -- If one loop broadcasts messages of the first kind, one messages of the second, and one nothing,
  -- then together they broadcast messages of the two kinds, and as many as they do alone.
  pub merged_broadcasts :
      {a b c h : History}
      → Interleaved a b c h
      → All P (broadcasts a)
      → All Q (broadcasts b)
      → broadcasts c ≡ []
      → All Either (broadcasts h)
        × (length (broadcasts h) ≡ length (broadcasts a) + length (broadcasts b))
  merged_broadcasts no_calls p q e = nothing_yet
  merged_broadcasts (by_oracle {a} {b} {c} {h} request run) p q e =
      let cons = broadcasts-cons request a in
      let (here, before) = All-split P (message request) (broadcasts a) (subst (All P) cons p) in
      add_message request h _ _ (All-weaken P Either (message request) (λ msg. inl) here)
        (merged_broadcasts run before q e)
        (omega (arith, ap length cons, length-append (message request) (broadcasts a)))
  merged_broadcasts (by_signer {a} {b} {c} {h} request run) p q e =
      let cons = broadcasts-cons request b in
      let (here, before) = All-split Q (message request) (broadcasts b) (subst (All Q) cons q) in
      add_message request h _ _ (All-weaken Q Either (message request) (λ msg. inr) here)
        (merged_broadcasts run p before e)
        (omega (arith, ap length cons, length-append (message request) (broadcasts b)))
  merged_broadcasts (by_relayer {a} {b} {c} {h} request run) p q e =
      let (here, before) =
        both_nil (message request) (broadcasts c) (sym (broadcasts-cons request c) ∙ e) in
      add_message request h _ _ (rw here tt) (merged_broadcasts run p q before)
        (rw here (omega arith))

-- The loops may run one after the other.
pub in_sequence : (a b c : History) → Interleaved a b c (c ++ (b ++ a))
in_sequence [] [] [] = no_calls
in_sequence (request ∷ a) [] [] = by_oracle request (in_sequence a [] [])
in_sequence a (request ∷ b) [] = by_signer request (in_sequence a b [])
in_sequence a b (request ∷ c) = by_relayer request (in_sequence a b c)
