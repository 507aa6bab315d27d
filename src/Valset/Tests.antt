-- ===== src/Valset/Tests.antt =====
-- Runs of the functions on validator sets, and the theorems about them at concrete sets.
use minter_hub.Error.{PeggyError, VotingMessage, VotingReport}
use minter_hub.Float.{F32, div_u32_max, f32_of_u64, lt, mul, round24, round_from, round_half_even}
use minter_hub.Outcome.{err, ok}
use minter_hub.Prelude.{List, [], arith, false, none, refl, some, ℕ, ◌+◌, ◌<◌, ◌↔◌, ◌∷◌, ◌≡◌}
use minter_hub.Valset.{
  BatchConfirmResponse, EthAddress, EthSignature, JsonRpcError, PeggySignature, Valset,
  ValsetConfirmResponse, ValsetMember, filter_empty_addresses, get_power, to_hashmap, to_hashset,
}
use minter_hub.Valset.Power.{power_diff, sum_lone, sum_shared, total_power_diff}
use minter_hub.Valset.Power.Distance.{gap}
use minter_hub.Valset.Power.Maps.{power_at}
use minter_hub.Valset.Power.Results.{power_diff-eq_zero, power_diff-le_two, power_diff_lem}
use minter_hub.Valset.Power.Sums.{sum_over}
use minter_hub.Valset.Signing.{
  confirms_to_hashmap, confirms_to_hashmap_from, finish, order_batch_sigs, order_sigs,
  order_valset_sigs, peggy_power_to_percent, tally_member, tally_members, tally_set,
}
use minter_hub.Valset.Signing.Order.{
  order_batch_sigs_lem, order_valset_sigs-filter_empty_addresses, order_valset_sigs-report,
  order_valset_sigs_lem,
}
use minter_hub.Valset.Signing.Votes.{total_power}

abbrev alice : ValsetMember
alice = record { power = 3000000000; eth_address = some 5 }

abbrev keyless : ValsetMember
keyless = record { power = 1000000000; eth_address = none }

abbrev carol : ValsetMember
carol = record { power = 294967295; eth_address = some 7 }

abbrev old_set : Valset
old_set = record { nonce = 4; members = alice ∷ keyless ∷ carol ∷ [] }

abbrev new_set : Valset
new_set = record { nonce = 5; members = alice ∷ record carol { power = 1294967295 } ∷ [] }

abbrev sig : ℕ → EthSignature
sig n = record { v = 27; r = n; s = n + 1 }

abbrev by_alice : ValsetConfirmResponse
by_alice = record { orchestrator = []; eth_address = 5; nonce = 5; eth_signature = sig 11 }

abbrev by_carol : ValsetConfirmResponse
by_carol = record { orchestrator = []; eth_address = 7; nonce = 5; eth_signature = sig 13 }

abbrev batch_by_alice : BatchConfirmResponse
batch_by_alice = record {
  nonce = 9;
  orchestrator = [];
  token_contract = 99;
  ethereum_signer = 5;
  eth_signature = sig 15;
}

abbrev entries : List PeggySignature
entries =
    record { power = 3000000000; eth_address = 5; v = 27; r = 11; s = 12 }
    ∷ record { power = 1000000000; eth_address = 0; v = 0; r = 0; s = 0 }
    ∷ record { power = 294967295; eth_address = 7; v = 0; r = 0; s = 0 }
    ∷ []

alice_suffices : order_valset_sigs old_set (by_alice ∷ []) ≡ ok entries
unfolding order_valset_sigs order_sigs tally_members tally_member tally_set confirms_to_hashmap
    confirms_to_hashmap_from finish lt peggy_power_to_percent mul div_u32_max f32_of_u64 round24
    round_from round_half_even
alice_suffices = refl

get_power_runs : get_power old_set.members 7 ≡ ok 294967295
unfolding get_power
get_power_runs = refl

power_diff_runs :
    power_diff {E = JsonRpcError} old_set new_set ≡ ok (record { num = 1000000000; scale = 32 })
unfolding power_diff total_power_diff sum_lone sum_shared to_hashmap to_hashset div_u32_max
    f32_of_u64 round24 round_from round_half_even
power_diff_runs = refl

order_valset_sigs_lem_example : order_valset_sigs old_set (by_alice ∷ []) ≡ ok entries
order_valset_sigs_lem_example = order_valset_sigs_lem old_set by_alice [] (omega arith)

order_batch_sigs_lem_example :
    order_batch_sigs old_set (batch_by_alice ∷ [])
    ≡ ok (
        record { power = 3000000000; eth_address = 5; v = 27; r = 15; s = 16 }
        ∷ record { power = 1000000000; eth_address = 0; v = 0; r = 0; s = 0 }
        ∷ record { power = 294967295; eth_address = 7; v = 0; r = 0; s = 0 }
        ∷ [])
order_batch_sigs_lem_example = order_batch_sigs_lem old_set batch_by_alice [] (omega arith)

order_valset_sigs-filter_empty_addresses_example :
    (5 ∷ 0 ∷ 7 ∷ [], 3000000000 ∷ 1000000000 ∷ 294967295 ∷ [])
    ≡ filter_empty_addresses old_set.members
order_valset_sigs-filter_empty_addresses_example =
    order_valset_sigs-filter_empty_addresses old_set (by_alice ∷ []) {out = entries} (omega arith)
      order_valset_sigs_lem_example

-- Carol alone falls short.
abbrev short : VotingReport
short = record {
  nonce = 5;
  token = none;
  power_of_good_sigs = 294967295;
  number_of_unset_key_validators = 1;
  num_validators = 3;
  power_of_unset_keys = 1000000000;
  number_of_nonvoters = 1;
  power_of_nonvoters = 3000000000;
}

carol_falls_short :
    order_valset_sigs old_set (by_carol ∷ [])
    ≡ err (PeggyError.insufficient_voting_power_to_pass (VotingMessage.can_not_execute short))
carol_falls_short = order_valset_sigs_lem old_set by_carol [] (omega arith)

order_valset_sigs-report_example :
    (294967295 + 1000000000 + 3000000000 ≡ total_power old_set.members) × (294967295 < 2834678144)
order_valset_sigs-report_example =
    order_valset_sigs-report old_set by_carol [] short (omega arith) carol_falls_short

power_diff_lem_example :
    power_diff {E = JsonRpcError} old_set new_set
    ≡ ok (div_u32_max (f32_of_u64 (sum_over (gap old_set new_set) (7 ∷ 5 ∷ 3 ∷ []))))
power_diff_lem_example =
    power_diff_lem old_set new_set (7 ∷ 5 ∷ 3 ∷ []) (omega arith) (refl, (refl, (refl, tt)))
      (λ k h. ground arith)

power_diff-le_two_example :
    (d : F32) × (power_diff {E = JsonRpcError} old_set new_set ≡ ok d)
    × (lt (record { num = 2; scale = 0 }) d ≡ false)
power_diff-le_two_example = power_diff-le_two old_set new_set (omega arith) (omega arith)

power_diff-eq_zero_example :
    (power_diff {E = JsonRpcError} old_set new_set ≡ ok (record { num = 0; scale = 32 }))
    ↔ ((k : EthAddress) → power_at old_set.members k ≡ power_at new_set.members k)
power_diff-eq_zero_example = power_diff-eq_zero old_set new_set (omega arith)
