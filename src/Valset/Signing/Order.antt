-- ===== src/Valset/Signing/Order.antt =====
-- `order_valset_sigs` and `order_batch_sigs` against their description.
use mathlib.Core.Path.{fun_ext}
use minter_hub.Error.{PeggyError, VotingMessage, VotingReport}
use minter_hub.Outcome.{err, ok}
use minter_hub.Prelude.{
  Bool, List, Option, [], arith, false, if◌then◌else◌, length, ltb, map, none, refl, some, sym,
  true, ℕ, ◌+◌, ◌<◌, ◌∙◌, ◌∷◌, ◌≡◌,
}
use minter_hub.Valset.{
  BatchConfirmResponse, EthAddress, PeggySignature, Valset, ValsetConfirmResponse, ValsetMember,
  filter_empty_addresses,
}
use minter_hub.Valset.Signing.{
  Confirm, batch_confirm, confirms_to_hashmap, empty_tally, finish, order_batch_sigs, order_sigs,
  order_valset_sigs, report, valset_confirm,
}
use minter_hub.Valset.Signing.Threshold.{percent-lt-quorum, quorum}
use minter_hub.Valset.Signing.Votes.{
  confirms_to_hashmap-keyed, entry, has_not_voted, has_unset_key, has_voted, last_confirm,
  lookup-confirms_to_hashmap, power_where, tally_members_lem, tally_of, total_power,
}
use native.Mathlib.Nat.{zero-add}

abbrev insufficient : VotingReport → PeggyError
insufficient r = PeggyError.insufficient_voting_power_to_pass (VotingMessage.can_not_execute r)

finish_lem :
    (r : VotingReport) (out : List PeggySignature)
    → finish r out ≡ (if ltb r.power_of_good_sigs quorum then err (insufficient r) else ok out)
unfolding finish
finish_lem r out = rw (percent-lt-quorum r.power_of_good_sigs)

module _ {C : Type 0} ⦃c : Confirm C⦄ where
  order_sigs_lem :
      (nonce : ℕ) (token : Option EthAddress) (members : List ValsetMember) (sigs : List C)
      → total_power members < 18446744073709551616
      → let t = tally_of (last_confirm sigs) members in
        order_sigs nonce token members sigs ≡ finish (report nonce token (length members) t) t.out
  unfolding order_sigs
  order_sigs_lem nonce token members sigs h =
      rw
        (tally_members_lem (confirms_to_hashmap sigs) (confirms_to_hashmap-keyed sigs) empty_tally
          members (omega arith))
        (rw (fun_ext (lookup-confirms_to_hashmap sigs)) (simp zero-add))

  order_sigs-decision :
      (nonce : ℕ) (token : Option EthAddress) (members : List ValsetMember) (sigs : List C)
      → total_power members < 18446744073709551616
      → let t = tally_of (last_confirm sigs) members in
        order_sigs nonce token members sigs ≡ (
          if ltb t.power_of_good_sigs quorum
          then err (insufficient (report nonce token (length members) t))
          else ok t.out)
  order_sigs-decision nonce token members sigs h =
      order_sigs_lem nonce token members sigs h ∙ finish_lem _ _

  -- The addresses and powers of the entries are those that `filter_empty_addresses` gives.
  entries-parallel :
      (find : EthAddress → Option C) (members : List ValsetMember)
      → (
        map (λ (e : PeggySignature). e.eth_address) (map (entry find) members),
        map (λ (e : PeggySignature). e.power) (map (entry find) members),
      )
        ≡ filter_empty_addresses members
  unfolding filter_empty_addresses
  entries-parallel find [] = refl
  entries-parallel find (m ∷ rest) = ground (arith, entries-parallel find rest)

  -- Every member is counted in one of the three powers, and nothing else is.
  power-partition :
      (find : EthAddress → Option C) (members : List ValsetMember)
      → power_where (has_voted find) members
          + power_where has_unset_key members
          + power_where (has_not_voted find) members
        ≡ total_power members
  power-partition find [] = refl
  power-partition find (m ∷ rest) = ground (arith, power-partition find rest)

-- For at least one confirmation and a total power below 2 ^ 64, `order_valset_sigs` returns, for each
-- member in the order of the set, its entry with the last confirmation by its address, if the power
-- of the members that confirmed is at least 2834678144; below that it fails and reports the powers
-- and the numbers of members that confirmed, have no key or did not vote. It never panics.
pub order_valset_sigs_lem :
    (v : Valset) (first : ValsetConfirmResponse) (rest : List ValsetConfirmResponse)
    → total_power v.members < 18446744073709551616
    → let t = tally_of (last_confirm (first ∷ rest)) v.members in
      order_valset_sigs v (first ∷ rest) ≡ (
        if ltb t.power_of_good_sigs 2834678144
        then err (insufficient (report first.nonce none (length v.members) t))
        else ok t.out)
unfolding order_valset_sigs
order_valset_sigs_lem v first rest h =
    order_sigs-decision first.nonce none v.members (first ∷ rest) h

-- For at least one confirmation and a total power below 2 ^ 64, `order_batch_sigs` returns, for each
-- member in the order of the set, its entry with the last confirmation by its address, if the power
-- of the members that confirmed is at least 2834678144; below that it fails and reports the nonce
-- and the token of the first confirmation and what the members have done. It never panics.
pub order_batch_sigs_lem :
    (v : Valset) (first : BatchConfirmResponse) (rest : List BatchConfirmResponse)
    → total_power v.members < 18446744073709551616
    → let t = tally_of (last_confirm (first ∷ rest)) v.members in
      order_batch_sigs v (first ∷ rest) ≡ (
        if ltb t.power_of_good_sigs 2834678144
        then err
            (insufficient (report first.nonce (some first.token_contract) (length v.members) t))
        else ok t.out)
unfolding order_batch_sigs
order_batch_sigs_lem v first rest h =
    order_sigs-decision first.nonce (some first.token_contract) v.members (first ∷ rest) h

parallel_of_ok :
    (p : Bool) (e : PeggyError) (good : List PeggySignature) {out : List PeggySignature}
    (members : List ValsetMember)
    → (map (λ (s : PeggySignature). s.eth_address) good, map (λ (s : PeggySignature). s.power) good)
      ≡ filter_empty_addresses members
    → (if p then err e else ok good) ≡ ok out
    → (map (λ (s : PeggySignature). s.eth_address) out, map (λ (s : PeggySignature). s.power) out)
      ≡ filter_empty_addresses members
parallel_of_ok true e good members q h = cc
parallel_of_ok false e good members q h = cc

-- Whatever `order_valset_sigs` returns, for a set with a total power below 2 ^ 64, lists the same
-- addresses and the same powers in the same order as `filter_empty_addresses`, from which the call
-- of the contract takes its other arrays.
pub order_valset_sigs-filter_empty_addresses :
    (v : Valset) (sigs : List ValsetConfirmResponse) {out : List PeggySignature}
    → total_power v.members < 18446744073709551616
    → order_valset_sigs v sigs ≡ ok out
    → (map (λ (s : PeggySignature). s.eth_address) out, map (λ (s : PeggySignature). s.power) out)
      ≡ filter_empty_addresses v.members
order_valset_sigs-filter_empty_addresses v [] b h = unfold order_valset_sigs in cc
order_valset_sigs-filter_empty_addresses v (first ∷ rest) b h =
    parallel_of_ok _ _ _ v.members (entries-parallel (last_confirm (first ∷ rest)) v.members)
      (sym (order_valset_sigs_lem v first rest b) ∙ h)

-- The same of `order_batch_sigs`, for a set with a total power below 2 ^ 64: the entries that it
-- returns list the addresses and powers of `filter_empty_addresses` in the same order.
order_batch_sigs-filter_empty_addresses :
    (v : Valset) (sigs : List BatchConfirmResponse) {out : List PeggySignature}
    → total_power v.members < 18446744073709551616
    → order_batch_sigs v sigs ≡ ok out
    → (map (λ (s : PeggySignature). s.eth_address) out, map (λ (s : PeggySignature). s.power) out)
      ≡ filter_empty_addresses v.members
order_batch_sigs-filter_empty_addresses v [] b h = unfold order_batch_sigs in cc
order_batch_sigs-filter_empty_addresses v (first ∷ rest) b h =
    parallel_of_ok _ _ _ v.members (entries-parallel (last_confirm (first ∷ rest)) v.members)
      (sym (order_batch_sigs_lem v first rest b) ∙ h)

-- When `order_valset_sigs` fails for a set with a total power below 2 ^ 64, the three powers of its
-- message sum to the power of all members, and the power that confirmed is below 2834678144.
pub order_valset_sigs-report :
    (v : Valset) (first : ValsetConfirmResponse) (rest : List ValsetConfirmResponse)
    (r : VotingReport)
    → total_power v.members < 18446744073709551616
    → order_valset_sigs v (first ∷ rest)
      ≡ err (PeggyError.insufficient_voting_power_to_pass (VotingMessage.can_not_execute r))
    → (r.power_of_good_sigs + r.power_of_unset_keys + r.power_of_nonvoters ≡ total_power v.members)
      × (r.power_of_good_sigs < 2834678144)
order_valset_sigs-report v first rest r b h = ground (
  arith,
  order_valset_sigs_lem v first rest b,
  power-partition (last_confirm (first ∷ rest)) v.members,
)
