-- ===== src/Send/Examples.antt =====
-- An orchestrator at a concrete node; the chain has a validator set that it has not signed.
use minter_hub.Crates.Examples.{plain_parsers}
use minter_hub.Oracle.Examples.{oracle_at}
use minter_hub.Outcome.{ok}
use minter_hub.Prelude.{[], none, some, ℕ}
use minter_hub.Send.{Orchestrator}

abbrev pub orchestrator_at : ℕ → Orchestrator
orchestrator_at before = record {
  oracle = oracle_at before;
  parsers = plain_parsers;
  eth_public_key = ok 5;
  sign_ethereum_msg = λ bytes. record { v = 27; r = 1; s = 2 };
  signature_to_hex = λ sig. "07";
  encode_tokens = λ tokens. [];
  encode_call = λ signature tokens. ok [];
  from_utf8 = λ bytes. ok "hub";
  query_pending_valset = λ h us. ok (some (record { nonce = 4; members = [] }));
  query_pending_batch = λ h us. ok none;
  query_latest_block_number = λ h. ok 50;
}
