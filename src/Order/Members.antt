-- ===== src/Order/Members.antt =====
-- The order of members and signatures is a total order, and sorting in it and reversing gives the
-- order of the Cosmos module.
use mathlib.Core.List.Perm
use mathlib.Core.List.Pairwise
use mathlib.Core.List.{Pairwise, Pairwise-reverse, Perm, reverse_perm}
use minter_hub.Crates.{Clarity}
use minter_hub.Order.{canonical_members, member_lt, signature_lt}
use minter_hub.Prelude.{
  List, Option, Option-cases, ap, arith, false, inl, inr, ltb, none, refl, some, suc, ℕ, ◌&&◌, ◌==◌,
  ◌||◌, ◌≡◌, ◌≤◌,
}
use minter_hub.Sorting.{sort}
use minter_hub.Sorting.Laws.{Orders, sort-IsSorted, sort-perm}
use minter_hub.Valset.{EthAddress, PeggySignature, ValsetMember}
use native.Mathlib.Bridge.{le_prop}

-- An address as a number above that of no address.
abbrev pub rank : Option EthAddress → ℕ
rank none = 0
rank (some a) = suc a

member_lt_lem :
    (eth : Clarity) (a b : ValsetMember)
    → member_lt eth a b ≡ (
        ltb a.power b.power
        || (a.power == b.power && ltb (rank b.eth_address) (rank a.eth_address)))
unfolding member_lt
member_lt_lem eth a b = elim (Option-cases a.eth_address) [
  | inl e ↦ ground arith
  | inr (x, e) ↦ elim (Option-cases b.eth_address) [
    | inl f ↦ ground arith
    | inr (y, f) ↦ ground (arith, eth.address_cmp_lem x y)
  ]
]

signature_lt_lem :
    (eth : Clarity) (a b : PeggySignature)
    → signature_lt eth a b
      ≡ (ltb a.power b.power || (a.power == b.power && ltb b.eth_address a.eth_address))
unfolding signature_lt
signature_lt_lem eth a b = ground (arith, eth.address_cmp_lem a.eth_address b.eth_address)

pub member_lt-Orders : (eth : Clarity) → Orders (member_lt eth)
member_lt-Orders eth = record {
  asym = λ a b h. ground (arith, member_lt_lem eth a b, member_lt_lem eth b a);
  trans = λ a b c h k.
      ground (arith, member_lt_lem eth b a, member_lt_lem eth c b, member_lt_lem eth c a);
}

pub signature_lt-Orders : (eth : Clarity) → Orders (signature_lt eth)
signature_lt-Orders eth = record {
  asym = λ a b h. ground (arith, signature_lt_lem eth a b, signature_lt_lem eth b a);
  trans = λ a b c h k.
      ground (arith, signature_lt_lem eth b a, signature_lt_lem eth c b, signature_lt_lem eth c a);
}

rank-injective : (a b : Option EthAddress) → rank a ≡ rank b → a ≡ b
rank-injective none none h = refl
rank-injective none (some b) h = absurd (omega arith)
rank-injective (some a) none h = absurd (omega arith)
rank-injective (some a) (some b) h = ap some (omega arith)

pub member_eq :
    (eth : Clarity) (a b : ValsetMember)
    → member_lt eth a b ≡ false
    → member_lt eth b a ≡ false
    → a ≡ b
member_eq eth a b h k =
    let p : a.power ≡ b.power = ground (arith, member_lt_lem eth a b, member_lt_lem eth b a) in
    let r : rank a.eth_address ≡ rank b.eth_address =
      ground (arith, member_lt_lem eth a b, member_lt_lem eth b a) in
    λ i. record { power = p i; eth_address = rank-injective a.eth_address b.eth_address r i }

-- The order of the Cosmos module: the greatest power first, and among equal powers the addresses
-- ascend, a missing one first.
abbrev pub Canonical : ValsetMember → ValsetMember → Type 0
Canonical a b = (b.power ≤ a.power) × (a.power ≡ b.power → rank a.eth_address ≤ rank b.eth_address)

Canonical-prop : (a b : ValsetMember) → IsProp (Canonical a b)
Canonical-prop a b = hlevel le_prop

Canonical-member_lt :
    (eth : Clarity) (a b : ValsetMember) → member_lt eth a b ≡ false → Canonical a b
Canonical-member_lt eth a b h =
    (ground (arith, member_lt_lem eth a b), λ e. ground (arith, member_lt_lem eth a b))

-- Sorting and reversing a list of members gives a permutation of it in which every member stands in
-- the order of the Cosmos module before all that follow it: more power first, and with equal power
-- the smaller address first, a missing one before all others.
pub canonical_members_lem :
    (eth : Clarity) (members : List ValsetMember)
    → Perm (canonical_members eth members) members
      × Pairwise Canonical (canonical_members eth members)
unfolding canonical_members
canonical_members_lem eth members = (
  Perm.trans (reverse_perm (sort (member_lt eth) members)) (sort-perm (member_lt eth) members),
  (Pairwise-reverse Canonical-prop).1 (
      Pairwise.imp (λ a b h. Canonical-member_lt eth b a h)
        (sort-IsSorted (member_lt eth) (member_lt-Orders eth) members)),
)
