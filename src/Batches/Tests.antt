-- ===== src/Batches/Tests.antt =====
-- Batches at concrete messages.
use minter_hub.Batches.{
  BatchTransaction, Erc20Token, Erc20TokenProto, OutgoingTransferTxProto, TransactionBatch,
  batch_transaction_from_proto, erc20_token_from_proto, transaction_batch_from_proto,
}
use minter_hub.Batches.Laws.{transaction_batch_from_proto_lem}
use minter_hub.Crates.Examples.{plain_eth, plain_num, plain_parsers}
use minter_hub.Outcome.{ok, traverse}
use minter_hub.Prelude.{[], arith, refl, replicate, some, ◌∷◌, ◌≡◌}

abbrev token_proto : Erc20TokenProto
token_proto = record { amount = "40"; contract = "0x05" }

abbrev tx_proto : OutgoingTransferTxProto
tx_proto = record {
  id = 1;
  sender = "cosmos1";
  dest_address = "0x05";
  erc20_token = some token_proto;
  erc20_fee = some token_proto;
}

abbrev forty : Erc20Token
forty = record { amount = 40; token_contract_address = 5 }

abbrev tx : BatchTransaction
tx = record {
  id = 1;
  sender = replicate 20 1;
  destination = 5;
  erc20_token = forty;
  erc20_fee = forty;
}

abbrev batch : TransactionBatch
batch = record {
  nonce = 9;
  transactions = tx ∷ tx ∷ [];
  total_fee = record forty { amount = 80 };
  token_contract = 5;
}

both_parse :
    traverse
      (batch_transaction_from_proto plain_num plain_eth plain_parsers)
      (tx_proto ∷ tx_proto ∷ [])
    ≡ ok (tx ∷ tx ∷ [])
unfolding traverse batch_transaction_from_proto erc20_token_from_proto
both_parse = refl

transaction_batch_from_proto_lem_example :
    transaction_batch_from_proto plain_num plain_eth plain_parsers
      (record { batch_nonce = 9; transactions = tx_proto ∷ tx_proto ∷ [] })
    ≡ ok batch
transaction_batch_from_proto_lem_example =
    transaction_batch_from_proto_lem plain_num plain_eth plain_parsers
      (record { batch_nonce = 9; transactions = tx_proto ∷ tx_proto ∷ [] }) (tx ∷ tx ∷ [])
      both_parse (omega arith)
