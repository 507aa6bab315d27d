-- ===== src/Send/Tests.antt =====
-- A confirmation with texts that are read back.
use minter_hub.Batches.{TransactionBatch}
use minter_hub.Crates.Examples.{plain_eth, plain_parsers}
use minter_hub.Crates.Texts.{read_from, write_numbers, write_numbers-read}
use minter_hub.Ethereum.{encode_valset_confirm}
use minter_hub.Oracle.Examples.{oracle_at}
use minter_hub.Outcome.{ok}
use minter_hub.Prelude.{List, [], ap, replicate, some, ℕ, ◌∷◌, ◌≡◌}
use minter_hub.Queries.{valset_confirm_from_proto}
use minter_hub.Send.{Orchestrator, confirm_of_valset}
use minter_hub.Send.Confirming.{
  ReadsBack, stored_valset_confirm, valset_confirm_from_proto-confirm_of_valset,
}
use minter_hub.Send.Examples.{orchestrator_at}
use minter_hub.Valset.{EthSignature, Valset}

first_of : List ℕ → ℕ
first_of [] = 0
first_of (n ∷ rest) = n

signature_of : List ℕ → EthSignature
signature_of (v ∷ r ∷ s ∷ rest) = record { v = v; r = r; s = s }
signature_of _ = record { v = 0; r = 0; s = 0 }

abbrev signer : Orchestrator
signer = record (orchestrator_at 0) {
  oracle = record (oracle_at 0) {
    eth = record plain_eth {
      parse_address = λ text. ok (first_of (read_from 0 text));
      address_to_string = λ a. write_numbers (a ∷ []);
    };
  };
  parsers = record plain_parsers {
    parse_cosmos_address = λ text. ok (read_from 0 text);
    parse_signature = λ text. ok (signature_of (read_from 0 text));
  };
  signature_to_hex = λ sig. write_numbers (sig.v ∷ sig.r ∷ sig.s ∷ []);
}

signer_texts : ReadsBack signer write_numbers
unfolding first_of signature_of
signer_texts = record {
  cosmos_text = λ a. ap ok (write_numbers-read a);
  eth_text = λ a. ap (λ ns. ok (first_of ns)) (write_numbers-read (a ∷ []));
  signature_text =
      λ sig. ap (λ ns. ok (signature_of ns)) (write_numbers-read (sig.v ∷ sig.r ∷ sig.s ∷ []));
}

abbrev pending_set : Valset
pending_set = record { nonce = 4; members = record { power = 7; eth_address = some 5 } ∷ [] }

valset_confirm_from_proto-confirm_of_valset_example :
    valset_confirm_from_proto signer.oracle.num signer.oracle.eth signer.parsers (
      stored_valset_confirm write_numbers signer.oracle.eth.address_to_string
        (confirm_of_valset signer (replicate 20 2) 5 "hub" pending_set))
    ≡ ok (record {
      orchestrator = replicate 20 2;
      eth_address = 5;
      nonce = 4;
      eth_signature =
          signer.sign_ethereum_msg (encode_valset_confirm signer.encode_tokens "hub" pending_set);
    })
valset_confirm_from_proto-confirm_of_valset_example =
    valset_confirm_from_proto-confirm_of_valset signer write_numbers signer_texts (replicate 20 2) 5
      "hub" pending_set

abbrev pending_batch : TransactionBatch
pending_batch = record {
  nonce = 9;
  transactions = [];
  total_fee = record { amount = 1; token_contract_address = 6 };
  token_contract = 6;
}
