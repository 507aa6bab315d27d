-- ===== src/Order/Tests.antt =====
-- The order of members at a concrete list, and the comparison of two sets that differ in it.
use mathlib.Core.List.{Pairwise, Perm}
use minter_hub.Crates.Examples.{plain_eth}
use minter_hub.Error.{PeggyError}
use minter_hub.Order.{canonical_members, check_if_valsets_differ}
use minter_hub.Order.Check.{IsRight, check_if_valsets_differ_lem}
use minter_hub.Order.Members.{Canonical, canonical_members_lem}
use minter_hub.Prelude.{[], some, ◌∷◌}
use minter_hub.Valset.{Valset, ValsetMember}

abbrev low : ValsetMember
low = record { power = 1; eth_address = some 5 }

abbrev high : ValsetMember
high = record { power = 3; eth_address = some 7 }

abbrev cosmos_set : Valset
cosmos_set = record { nonce = 4; members = high ∷ low ∷ [] }

abbrev ethereum_set : Valset
ethereum_set = record { nonce = 4; members = low ∷ high ∷ [] }

canonical_members_lem_example :
    Perm (canonical_members plain_eth (low ∷ high ∷ [])) (low ∷ high ∷ [])
    × Pairwise Canonical (canonical_members plain_eth (low ∷ high ∷ []))
canonical_members_lem_example = canonical_members_lem plain_eth (low ∷ high ∷ [])

check_if_valsets_differ_lem_example :
    IsRight
      (some cosmos_set)
      ethereum_set
      (check_if_valsets_differ {E = PeggyError} plain_eth (some cosmos_set) ethereum_set)
check_if_valsets_differ_lem_example =
    check_if_valsets_differ_lem PeggyError plain_eth (some cosmos_set) ethereum_set
