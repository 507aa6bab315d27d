-- ===== src/Valset/Signing.antt =====
-- `order_valset_sigs` and `order_batch_sigs` of orchestrator/peggy_utils/src/types/valsets.rs. The two
-- functions share one body in the source's text; here it is written once, over what it reads of a
-- confirmation.
pub mod Order
pub mod Threshold
pub mod Votes
use minter_hub.Dict.{HashMap, insert, lookup}
use minter_hub.Error.{PeggyError, VotingMessage, VotingReport}
use minter_hub.Float.{F32, div_u32_max, f32_of_u64, lt, mul}
use minter_hub.Outcome.{Outcome, assert, err, ok, ◌>>=◌, ◌>>◌}
use minter_hub.Prelude.{
  List, Option, [], if◌then◌else◌, length, none, some, ℕ, ◌++◌, ◌+◌, ◌==◌, ◌∷◌,
}
use minter_hub.Valset.{
  BatchConfirmResponse, EthAddress, EthSignature, PeggySignature, Valset, ValsetConfirmResponse,
  ValsetMember, zero_address,
}
use minter_hub.Words.{add_u64}

-- What is read of a confirmation.
pub record Confirm (C : Type 0) : Type 0 where
  pub signer : C → EthAddress
  pub signature : C → EthSignature

instance abbrev pub valset_confirm : Confirm ValsetConfirmResponse
valset_confirm = record { signer = λ c. c.eth_address; signature = λ c. c.eth_signature }

instance abbrev pub batch_confirm : Confirm BatchConfirmResponse
batch_confirm = record { signer = λ c. c.ethereum_signer; signature = λ c. c.eth_signature }

-- `(input as f32 / TOTAL_PEGGY_POWER as f32) * 100f32`
unfoldable pub peggy_power_to_percent : ℕ → F32
unfolding f32_of_u64 div_u32_max mul
peggy_power_to_percent input =
    mul (div_u32_max (f32_of_u64 input)) (record { num = 100; scale = 0 })

-- The local variables of the loop over the members.
pub record Tally : Type 0 where
  pub out : List PeggySignature
  pub power_of_good_sigs : ℕ
  pub power_of_unset_keys : ℕ
  pub number_of_unset_key_validators : ℕ
  pub power_of_nonvoters : ℕ
  pub number_of_nonvoters : ℕ

abbrev pub empty_tally : Tally
empty_tally = record {
  out = [];
  power_of_good_sigs = 0;
  power_of_unset_keys = 0;
  number_of_unset_key_validators = 0;
  power_of_nonvoters = 0;
  number_of_nonvoters = 0;
}

-- The entry of a member that did not sign.
abbrev pub unsigned : ℕ → EthAddress → PeggySignature
unsigned power address = record { power = power; eth_address = address; v = 0; r = 0; s = 0 }

abbrev pub signed : ℕ → EthAddress → EthSignature → PeggySignature
signed power address sig = record {
  power = power;
  eth_address = address;
  v = sig.v;
  r = sig.r;
  s = sig.s;
}

abbrev pub tally_good : Tally → ℕ → EthAddress → EthSignature → Tally
tally_good t power address sig = record t {
  out = t.out ++ signed power address sig ∷ [];
  power_of_good_sigs = add_u64 t.power_of_good_sigs power;
}

abbrev pub tally_nonvoter : Tally → ℕ → EthAddress → Tally
tally_nonvoter t power address = record t {
  out = t.out ++ unsigned power address ∷ [];
  power_of_nonvoters = add_u64 t.power_of_nonvoters power;
  number_of_nonvoters = t.number_of_nonvoters + 1;
}

abbrev pub tally_unset : Tally → ℕ → Tally
tally_unset t power = record t {
  out = t.out ++ unsigned power zero_address ∷ [];
  power_of_unset_keys = add_u64 t.power_of_unset_keys power;
  number_of_unset_key_validators = t.number_of_unset_key_validators + 1;
}

module _ {C : Type 0} ⦃c : Confirm C⦄ where
  unfoldable pub confirms_to_hashmap_from : HashMap C → List C → HashMap C
  confirms_to_hashmap_from ret [] = ret
  confirms_to_hashmap_from ret (item ∷ rest) =
      confirms_to_hashmap_from (insert (c.signer item) item ret) rest

  -- `valset_confirms_to_hashmap` and `batch_confirms_to_hashmap`
  unfoldable pub confirms_to_hashmap : List C → HashMap C
  confirms_to_hashmap input = confirms_to_hashmap_from [] input

  -- A member whose address is set, by what the map holds for it.
  unfoldable pub tally_set : Option C → Tally → ℕ → EthAddress → Outcome PeggyError Tally
  tally_set none t power address = ok (tally_nonvoter t power address)
  tally_set (some sig) t power address =
      assert (c.signer sig == address) >> ok (tally_good t power (c.signer sig) (c.signature sig))

  unfoldable pub tally_member : HashMap C → Tally → ℕ → Option EthAddress → Outcome PeggyError Tally
  tally_member sigs t power none = ok (tally_unset t power)
  tally_member sigs t power (some address) = tally_set (lookup address sigs) t power address

  unfoldable pub tally_members : HashMap C → Tally → List ValsetMember → Outcome PeggyError Tally
  tally_members sigs t [] = ok t
  tally_members sigs t (member ∷ rest) =
      tally_member sigs t member.power member.eth_address >>= λ t'. tally_members sigs t' rest

abbrev pub report : ℕ → Option EthAddress → ℕ → Tally → VotingReport
report nonce token num_validators t = record {
  nonce = nonce;
  token = token;
  power_of_good_sigs = t.power_of_good_sigs;
  number_of_unset_key_validators = t.number_of_unset_key_validators;
  num_validators = num_validators;
  power_of_unset_keys = t.power_of_unset_keys;
  number_of_nonvoters = t.number_of_nonvoters;
  power_of_nonvoters = t.power_of_nonvoters;
}

-- The test after the loop.
unfoldable pub finish :
    VotingReport → List PeggySignature → Outcome PeggyError (List PeggySignature)
finish r out =
    if lt (peggy_power_to_percent r.power_of_good_sigs) (record { num = 66; scale = 0 })
    then err (PeggyError.insufficient_voting_power_to_pass (VotingMessage.can_not_execute r))
    else ok out

-- The part that both functions share, from the nonce and the token of the first confirmation.
module _ {C : Type 0} ⦃c : Confirm C⦄ where
  unfoldable pub order_sigs :
      ℕ → Option EthAddress → List ValsetMember → List C → Outcome PeggyError (List PeggySignature)
  order_sigs nonce token members signatures =
      tally_members (confirms_to_hashmap signatures) empty_tally members >>= λ t.
      finish (report nonce token (length members) t) t.out

unfoldable pub order_valset_sigs :
    Valset → List ValsetConfirmResponse → Outcome PeggyError (List PeggySignature)
order_valset_sigs v [] =
    err (PeggyError.insufficient_voting_power_to_pass VotingMessage.no_signatures)
order_valset_sigs v (first ∷ rest) = order_sigs first.nonce none v.members (first ∷ rest)

unfoldable pub order_batch_sigs :
    Valset → List BatchConfirmResponse → Outcome PeggyError (List PeggySignature)
order_batch_sigs v [] =
    err (PeggyError.insufficient_voting_power_to_pass VotingMessage.no_signatures)
order_batch_sigs v (first ∷ rest) =
    order_sigs first.nonce (some first.token_contract) v.members (first ∷ rest)
