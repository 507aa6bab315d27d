-- ===== src/Order/Check.antt =====
-- What each verdict of `check_if_valsets_differ` says of the two validator sets.
use mathlib.Core.List.{Perm}
use mathlib.Core.Logic.{ite}
use minter_hub.Crates.{Clarity}
use minter_hub.Order.{
  ValsetCheck, check_if_valsets_differ, compare_valsets, member_lt, members_discrete,
}
use minter_hub.Order.Members.{member_eq, member_lt-Orders}
use minter_hub.Outcome.{Outcome, ok, panic}
use minter_hub.Prelude.{
  Bool, Bool-cases, List, Option, arith, false, if◌then◌else◌, inl, inr, none, not, refl, some,
  true, ◌==◌, ◌↔◌, ◌≡◌,
}
use minter_hub.Sorting.{sort}
use minter_hub.Sorting.Laws.{sort-eq_iff_perm}
use minter_hub.Valset.{Valset, ValsetMember}

-- The nonces and the members of the sets, compared, for each verdict.
unfoldable pub Says : Valset → Valset → ValsetCheck → Type 0
Says cosmos ethereum ValsetCheck.bootstrapping = ⊥
Says cosmos ethereum ValsetCheck.same_valset =
    (cosmos.nonce ≡ ethereum.nonce) × (cosmos.members ≡ ethereum.members)
Says cosmos ethereum ValsetCheck.wrong_nonce = ¬ (cosmos.nonce ≡ ethereum.nonce)
Says cosmos ethereum ValsetCheck.sorting_disagreement =
    (cosmos.nonce ≡ ethereum.nonce)
    × (¬ (cosmos.members ≡ ethereum.members))
    × Perm cosmos.members ethereum.members
Says cosmos ethereum ValsetCheck.possible_highjacking =
    (cosmos.nonce ≡ ethereum.nonce) × (¬ (Perm cosmos.members ethereum.members))

-- The outcome for a set that Cosmos may not know.
unfoldable pub IsRight : {E : Type 0} → Option Valset → Valset → Outcome E ValsetCheck → Type 0
IsRight none ethereum (ok ValsetCheck.bootstrapping) = ethereum.nonce ≡ 0
IsRight none ethereum panic = ¬ (ethereum.nonce ≡ 0)
IsRight none ethereum _ = ⊥
IsRight (some cosmos) ethereum (ok verdict) = Says cosmos ethereum verdict
IsRight (some cosmos) ethereum _ = ⊥

sorts_iff_perm :
    (eth : Clarity) (xs ys : List ValsetMember)
    → (sort (member_lt eth) xs ≡ sort (member_lt eth) ys) ↔ Perm xs ys
sorts_iff_perm eth xs ys =
    sort-eq_iff_perm (member_lt eth) (member_lt-Orders eth) (member_eq eth) xs ys

Says-ite :
    (eth : Clarity) (cosmos ethereum : Valset) (n : Bool)
    (d : Dec (cosmos.members ≡ ethereum.members))
    (s : Dec (sort (member_lt eth) cosmos.members ≡ sort (member_lt eth) ethereum.members))
    → (cosmos.nonce == ethereum.nonce) ≡ n
    → Says cosmos ethereum (
        ite d (if n then ValsetCheck.same_valset else ValsetCheck.wrong_nonce) (
          if not n
          then ValsetCheck.wrong_nonce
          else ite s ValsetCheck.sorting_disagreement ValsetCheck.possible_highjacking))
unfolding Says
Says-ite eth cosmos ethereum true (yes m) s e = (ground arith, m)
Says-ite eth cosmos ethereum false (yes m) s e = ground arith
Says-ite eth cosmos ethereum true (no m) (yes s) e =
    (ground arith, m, (sorts_iff_perm eth cosmos.members ethereum.members).0 s)
Says-ite eth cosmos ethereum true (no m) (no s) e =
    (ground arith, λ p. s ((sorts_iff_perm eth cosmos.members ethereum.members).1 p))
Says-ite eth cosmos ethereum false (no m) s e = ground arith

-- `check_if_valsets_differ` panics exactly when Cosmos does not know the set and the nonce is not
-- zero. Of two sets, it says that they are the same when nonces and members are equal, that a nonce
-- is wrong when the nonces differ, that the sorting differs when the members are the same up to
-- their order but not equal, and that the bridge may be highjacked when no reordering makes them
-- equal.
pub check_if_valsets_differ_lem :
    (E : Type 0) (eth : Clarity) (cosmos : Option Valset) (ethereum : Valset)
    → IsRight cosmos ethereum (check_if_valsets_differ {E = E} eth cosmos ethereum)
unfolding check_if_valsets_differ IsRight compare_valsets
check_if_valsets_differ_lem E eth none ethereum = elim (Bool-cases (ethereum.nonce == 0)) [
  | inl e ↦ rw e (ground arith)
  | inr e ↦ rw e (ground arith)
]
check_if_valsets_differ_lem E eth (some cosmos) ethereum =
    Says-ite eth cosmos ethereum (cosmos.nonce == ethereum.nonce)
      (members_discrete cosmos.members ethereum.members)
      (members_discrete (sort (member_lt eth) cosmos.members)
        (sort (member_lt eth) ethereum.members))
      refl
