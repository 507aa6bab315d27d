-- ===== src/Order.antt =====
-- The orders of `ValsetMember` and `PeggySignature` of orchestrator/peggy_utils/src/types, and the
-- comparison of two validator sets in orchestrator/relayer/src/find_latest_valset.rs.
pub mod Members
pub mod Check
mod Tests
use Prim.Native.Nat.{Ordering, compare}
use mathlib.Core.Logic.{ite}
use minter_hub.Crates.{Clarity}
use minter_hub.Outcome.{Outcome, ok, panic}
use minter_hub.Prelude.{
  Bool, List, Option, false, if◌then◌else◌, none, not, reverse, some, true, ℕ, ◌==◌,
}
use minter_hub.Sorting.{sort}
use minter_hub.Valset.{PeggySignature, Valset, ValsetMember}
use native.Mathlib.Decide.{ℕ_discrete}

-- `Ordering::reverse`
abbrev pub reverse_ordering : Ordering → Ordering
reverse_ordering Ordering.lt = Ordering.gt
reverse_ordering Ordering.eq = Ordering.eq
reverse_ordering Ordering.gt = Ordering.lt

abbrev pub is_less : Ordering → Bool
is_less Ordering.lt = true
is_less _ = false

-- `Ord` of an `Option`: `None` is the least.
abbrev pub option_cmp : (ℕ → ℕ → Ordering) → Option ℕ → Option ℕ → Ordering
option_cmp cmp none none = Ordering.eq
option_cmp cmp none (some b) = Ordering.lt
option_cmp cmp (some a) none = Ordering.gt
option_cmp cmp (some a) (some b) = cmp a b

-- `<` by `Ord for ValsetMember`
unfoldable pub member_lt : Clarity → ValsetMember → ValsetMember → Bool
member_lt eth a b =
    if not (a.power == b.power)
    then is_less (compare a.power b.power)
    else is_less (reverse_ordering (option_cmp eth.address_cmp a.eth_address b.eth_address))

-- `<` by `Ord for PeggySignature`
unfoldable pub signature_lt : Clarity → PeggySignature → PeggySignature → Bool
signature_lt eth a b =
    if not (a.power == b.power)
    then is_less (compare a.power b.power)
    else is_less (reverse_ordering (eth.address_cmp a.eth_address b.eth_address))

-- `.sort()` and `.reverse()`, the order of the Cosmos module.
unfoldable pub canonical_members : Clarity → List ValsetMember → List ValsetMember
canonical_members eth members = reverse (sort (member_lt eth) members)

unfoldable pub canonical_signatures : Clarity → List PeggySignature → List PeggySignature
canonical_signatures eth signatures = reverse (sort (signature_lt eth) signatures)

-- What `check_if_valsets_differ` finds; all but the first two are written to the log.
pub data ValsetCheck : Type 0 where
  bootstrapping : ValsetCheck
  same_valset : ValsetCheck
  wrong_nonce : ValsetCheck
  sorting_disagreement : ValsetCheck
  possible_highjacking : ValsetCheck

ValsetMember-discrete : Discrete ValsetMember
ValsetMember-discrete = hlevel ℕ_discrete

unfoldable pub members_discrete : Discrete (List ValsetMember)
unfolding ValsetMember-discrete
members_discrete = hlevel ℕ_discrete

-- `check_if_valsets_differ`. A missing set for a nonce other than zero is written to the log, and the
-- `unwrap` after it panics.
compare_valsets : Clarity → Valset → Valset → ValsetCheck
compare_valsets eth cosmos_valset ethereum_valset =
    ite (members_discrete cosmos_valset.members ethereum_valset.members)
      (if cosmos_valset.nonce == ethereum_valset.nonce then same_valset else wrong_nonce)
      (if not (cosmos_valset.nonce == ethereum_valset.nonce)
        then wrong_nonce
        else ite
            (members_discrete (sort (member_lt eth) cosmos_valset.members)
              (sort (member_lt eth) ethereum_valset.members))
            sorting_disagreement possible_highjacking)

unfoldable pub check_if_valsets_differ :
    {E : Type 0} → Clarity → Option Valset → Valset → Outcome E ValsetCheck
unfolding compare_valsets
check_if_valsets_differ eth none ethereum_valset =
    if ethereum_valset.nonce == 0 then ok bootstrapping else panic
check_if_valsets_differ eth (some cosmos_valset) ethereum_valset =
    ok (compare_valsets eth cosmos_valset ethereum_valset)
