-- ===== src/Valset/Signing/Votes.antt =====
-- What the loop of `order_valset_sigs` and `order_batch_sigs` is meant to collect, described by
-- what each member has done, and a proof that the loop collects it.
use mathlib.Core.List.{append-nil, append_assoc}
use minter_hub.Dict.{HashMap, insert, lookup, lookup-insert}
use minter_hub.Outcome.{ok}
use minter_hub.Prelude.{
  Bool, List, Option, Option-cases, [], ap, arith, false, if◌then◌else◌, inl, inr, map, none, refl,
  some, sym, true, ℕ, ◌++◌, ◌+◌, ◌<◌, ◌==◌, ◌∙◌, ◌∷◌, ◌≡◌,
}
use minter_hub.Valset.{EthAddress, PeggySignature, ValsetMember, zero_address}
use minter_hub.Valset.Signing.{
  Confirm, Tally, confirms_to_hashmap, confirms_to_hashmap_from, signed, tally_member,
  tally_members, tally_set, unsigned,
}

-- The power of the members that pass a test, and their number.
abbrev pub power_where : (ValsetMember → Bool) → List ValsetMember → ℕ
power_where p [] = 0
power_where p (m ∷ rest) = (if p m then m.power else 0) + power_where p rest

abbrev pub count_where : (ValsetMember → Bool) → List ValsetMember → ℕ
count_where p [] = 0
count_where p (m ∷ rest) = (if p m then 1 else 0) + count_where p rest

abbrev pub total_power : List ValsetMember → ℕ
total_power [] = 0
total_power (m ∷ rest) = m.power + total_power rest

abbrev pub has_unset_key : ValsetMember → Bool
has_unset_key m = elim m.eth_address [ none ↦ true | some _ ↦ false ]

module _ {C : Type 0} ⦃c : Confirm C⦄ where
  -- The last confirmation that an address signed.
  abbrev pub last_confirm : List C → EthAddress → Option C
  last_confirm [] a = none
  last_confirm (d ∷ rest) a = elim (last_confirm rest a) [
    | some e ↦ some e
    | none ↦ if a == c.signer d then some d else none
  ]

  module _ (find : EthAddress → Option C) where
    -- The entry that the contract is to see for a member.
    abbrev pub entry : ValsetMember → PeggySignature
    entry m = elim m.eth_address [
      | none ↦ unsigned m.power zero_address
      | some a ↦ elim (find a) [
        | none ↦ unsigned m.power a
        | some d ↦ signed m.power a (c.signature d)
      ]
    ]

    abbrev pub has_voted : ValsetMember → Bool
    has_voted m = elim m.eth_address [
      | none ↦ false
      | some a ↦ elim (find a) [ none ↦ false | some _ ↦ true ]
    ]

    abbrev pub has_not_voted : ValsetMember → Bool
    has_not_voted m = elim m.eth_address [
      | none ↦ false
      | some a ↦ elim (find a) [ none ↦ true | some _ ↦ false ]
    ]

    abbrev pub tally_of : List ValsetMember → Tally
    tally_of members = record {
      out = map entry members;
      power_of_good_sigs = power_where has_voted members;
      power_of_unset_keys = power_where has_unset_key members;
      number_of_unset_key_validators = count_where has_unset_key members;
      power_of_nonvoters = power_where has_not_voted members;
      number_of_nonvoters = count_where has_not_voted members;
    }

abbrev add_tally : Tally → Tally → Tally
add_tally t u = record {
  out = t.out ++ u.out;
  power_of_good_sigs = t.power_of_good_sigs + u.power_of_good_sigs;
  power_of_unset_keys = t.power_of_unset_keys + u.power_of_unset_keys;
  number_of_unset_key_validators =
      t.number_of_unset_key_validators + u.number_of_unset_key_validators;
  power_of_nonvoters = t.power_of_nonvoters + u.power_of_nonvoters;
  number_of_nonvoters = t.number_of_nonvoters + u.number_of_nonvoters;
}

-- The power that has been counted so far.
abbrev counted : Tally → ℕ
counted t = t.power_of_good_sigs + t.power_of_unset_keys + t.power_of_nonvoters

module _ {C : Type 0} ⦃c : Confirm C⦄ (sigs : HashMap C)
    (keyed : (a : EthAddress) (d : C) → lookup a sigs ≡ some d → c.signer d ≡ a) where
  abbrev find : EthAddress → Option C
  find a = lookup a sigs

  tally_member_lem :
      (t : Tally) (p : ℕ) (o : Option EthAddress)
      → counted t + p < 18446744073709551616
      → tally_member sigs t p o
        ≡ ok (add_tally t (tally_of find (record { power = p; eth_address = o } ∷ [])))
  unfolding tally_member tally_set
  tally_member_lem t p none h = ground arith
  tally_member_lem t p (some a) h = elim (Option-cases (lookup a sigs)) [
    | inl e ↦ ground arith
    | inr (d, e) ↦ ground (arith, keyed a d e)
  ]

  add_tally-cons :
      (t : Tally) (m : ValsetMember) (rest : List ValsetMember)
      → add_tally (add_tally t (tally_of find (m ∷ []))) (tally_of find rest)
        ≡ add_tally t (tally_of find (m ∷ rest))
  add_tally-cons t m rest =
      ground (arith, append_assoc t.out (entry find m ∷ []) (map (entry find) rest))

  counted-add_tally :
      (t : Tally) (m : ValsetMember)
      → counted (add_tally t (tally_of find (m ∷ []))) ≡ counted t + m.power
  counted-add_tally t m = ground arith

  -- The loop over the members adds what each of them has done.
  pub tally_members_lem :
      (t : Tally) (members : List ValsetMember)
      → counted t + total_power members < 18446744073709551616
      → tally_members sigs t members ≡ ok (add_tally t (tally_of find members))
  unfolding tally_members
  tally_members_lem t [] h = ground (arith, append-nil t.out)
  tally_members_lem t (m ∷ rest) h = rw (tally_member_lem t m.power m.eth_address (omega arith)) (
      tally_members_lem (add_tally t (tally_of find (m ∷ []))) rest
        (omega (arith, counted-add_tally t m))
      ∙ ap ok (add_tally-cons t m rest))

module _ {C : Type 0} ⦃c : Confirm C⦄ where
  lookup-confirms_from :
      (a : EthAddress) (ret : HashMap C) (input : List C)
      → lookup a (confirms_to_hashmap_from ret input)
        ≡ elim (last_confirm input a) [ some d ↦ some d | none ↦ lookup a ret ]
  unfolding confirms_to_hashmap_from
  lookup-confirms_from a ret [] = refl
  lookup-confirms_from a ret (d ∷ rest) = ground (
    arith,
    lookup-confirms_from a (insert (c.signer d) d ret) rest,
    lookup-insert a (c.signer d) d ret,
  )

  -- Of two confirmations by one address the later is kept.
  pub lookup-confirms_to_hashmap :
      (input : List C) (a : EthAddress)
      → lookup a (confirms_to_hashmap input) ≡ last_confirm input a
  unfolding confirms_to_hashmap
  lookup-confirms_to_hashmap input a = ground (arith, lookup-confirms_from a [] input)

  last_confirm-signer :
      (input : List C) (a : EthAddress) (d : C) → last_confirm input a ≡ some d → c.signer d ≡ a
  last_confirm-signer [] a d h = cc
  last_confirm-signer (e ∷ rest) a d h = ground (arith, last_confirm-signer rest a d)

  pub confirms_to_hashmap-keyed :
      (input : List C) (a : EthAddress) (d : C)
      → lookup a (confirms_to_hashmap input) ≡ some d
      → c.signer d ≡ a
  confirms_to_hashmap-keyed input a d h =
      last_confirm-signer input a d (sym (lookup-confirms_to_hashmap input a) ∙ h)
