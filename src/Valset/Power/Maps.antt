-- ===== src/Valset/Power/Maps.antt =====
-- What `to_hashmap` and `to_hashset` hold: of two members with one address the later counts.
use minter_hub.Dict.{HashMap, HashSet, contains, lookup, lookup-insert}
use minter_hub.Prelude.{
  Bool, List, Option, Option-cases, [], arith, false, if◌then◌else◌, inl, inr, none, refl, some,
  true, ℕ, ◌||◌, ◌∷◌, ◌≡◌,
}
use minter_hub.Valset.{
  EthAddress, Valset, ValsetMember, add_member, insert_member, is_at, to_hashmap, to_hashmap_from,
  to_hashset, to_hashset_from,
}
use minter_hub.Valset.Power.Sums.{Distinct}

-- The power of the last member at an address.
abbrev pub last_power : List ValsetMember → EthAddress → Option ℕ
last_power [] k = none
last_power (m ∷ rest) k = elim (last_power rest k) [
  | some p ↦ some p
  | none ↦ if is_at k m then some m.power else none
]

-- The power of an address, zero where no member has it.
abbrev pub power_at : List ValsetMember → EthAddress → ℕ
power_at members k = elim (last_power members k) [ none ↦ 0 | some p ↦ p ]

abbrev pub has : List ValsetMember → EthAddress → Bool
has members k = elim (last_power members k) [ none ↦ false | some _ ↦ true ]

lookup-insert_member :
    (k : EthAddress) (res : HashMap ℕ) (m : ValsetMember)
    → lookup k (insert_member res m) ≡ (if is_at k m then some m.power else lookup k res)
lookup-insert_member k res m = elim (Option-cases m.eth_address) [
  | inl e ↦ ground arith
  | inr (a, e) ↦ ground (arith, lookup-insert k a m.power res)
]

lookup-to_hashmap_from :
    (k : EthAddress) (res : HashMap ℕ) (members : List ValsetMember)
    → lookup k (to_hashmap_from res members)
      ≡ elim (last_power members k) [ some p ↦ some p | none ↦ lookup k res ]
lookup-to_hashmap_from k res [] = refl
lookup-to_hashmap_from k res (m ∷ rest) =
    ground
      (arith, lookup-to_hashmap_from k (insert_member res m) rest, lookup-insert_member k res m)

pub lookup-to_hashmap :
    (k : EthAddress) (v : Valset) → lookup k (to_hashmap v) ≡ last_power v.members k
unfolding to_hashmap
lookup-to_hashmap k v = ground (arith, lookup-to_hashmap_from k [] v.members)

contains-add_member :
    (k : EthAddress) (res : HashSet) (m : ValsetMember)
    → contains k (add_member res m) ≡ (is_at k m || contains k res)
contains-add_member k res m = ground arith

contains-to_hashset_from :
    (k : EthAddress) (res : HashSet) (members : List ValsetMember)
    → contains k (to_hashset_from res members) ≡ (has members k || contains k res)
contains-to_hashset_from k res [] = refl
contains-to_hashset_from k res (m ∷ rest) =
    ground (arith, contains-to_hashset_from k (add_member res m) rest, contains-add_member k res m)

pub contains-to_hashset :
    (k : EthAddress) (v : Valset) → contains k (to_hashset v) ≡ has v.members k
unfolding to_hashset
contains-to_hashset k v = ground (arith, contains-to_hashset_from k [] v.members)

add_member-Distinct :
    (res : HashSet) (m : ValsetMember) → Distinct res → Distinct (add_member res m)
add_member-Distinct res m d = ground arith

to_hashset_from-Distinct :
    (res : HashSet) (members : List ValsetMember)
    → Distinct res
    → Distinct (to_hashset_from res members)
to_hashset_from-Distinct res [] d = d
to_hashset_from-Distinct res (m ∷ rest) d =
    to_hashset_from-Distinct (add_member res m) rest (add_member-Distinct res m d)

pub to_hashset-Distinct : (v : Valset) → Distinct (to_hashset v)
unfolding to_hashset
to_hashset-Distinct v = to_hashset_from-Distinct [] v.members tt
