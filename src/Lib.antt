-- ===== src/Lib.antt =====
-- Verification of the Rust orchestrator of the Minter Hub bridge, under orchestrator/.
--
-- The orchestrator runs beside a validator of the Cosmos chain. It signs the validator sets and the
-- batches of transfers that the chain proposes, it carries the signed ones to the bridge contract on
-- Ethereum (the relayer), and it reports the events of the contract to the chain (the oracle). Its
-- parts meet in the types of orchestrator/peggy_utils: a validator set and its confirmations become
-- the arrays of a call of the contract, and a log of the contract becomes an event.
--
-- Which file models which part:
--   Valset, Valset/Signing: orchestrator/peggy_utils/src/types/valsets.rs, with `order_valset_sigs`,
--     `order_batch_sigs` and the tally of their loop; Valset/Power is `power_diff`.
--   Order, Sorting: `Ord` of members and signatures, the standard `sort`, and
--     `check_if_valsets_differ` of orchestrator/relayer/src/find_latest_valset.rs.
--   Events and the modules below it: orchestrator/peggy_utils/src/types/ethereum_events.rs; Abi
--     describes the words that the contract writes, which those parsers are given.
--   Batches: orchestrator/peggy_utils/src/types/batches.rs and mod.rs, with the order by which batches
--     are sorted in Batches/Derived.
--   Ethereum, Ethereum/Payloads, Submit: orchestrator/ethereum_peggy/src/utils.rs,
--     message_signatures.rs, valset_update.rs and submit_batch.rs, with `to_arrays` of
--     orchestrator/peggy_utils/src/types/signatures.rs.
--   Deposit: orchestrator/ethereum_peggy/src/send_to_cosmos.rs.
--   Coins: orchestrator/peggy_utils/src/types/coins.rs, with the query that returns them.
--   Claims: orchestrator/cosmos_peggy/src/messages.rs, and the messages of `send_ethereum_claims` in
--     send.rs.
--   Oracle, SignMsg: orchestrator/orchestrator/src/ethereum_event_watcher.rs (`watch_events` is its
--     `check_for_events`), and `send_ethereum_claims`.
--   Send: the other functions of orchestrator/cosmos_peggy/src/send.rs, among them the confirmations.
--   Resync: orchestrator/orchestrator/src/oracle_resync.rs.
--   MainLoop: the loops of the oracle and of the signer in orchestrator/orchestrator/src/main_loop.rs,
--     with the queries of what is pending; MainLoop/Together runs them beside the relayer, as
--     Io/Interleaving says.
--   Queries: the other queries of orchestrator/cosmos_peggy/src/query.rs and the conversions of all
--     answers.
--   Relayer, Relayer/Batches, Relayer/Rounds: orchestrator/relayer/src/find_latest_valset.rs,
--     valset_relaying.rs, batch_relaying.rs and main_loop.rs.
--   Waiting: orchestrator/cosmos_peggy/src/utils.rs.
--   Client: orchestrator/client/src/main.rs and orchestrator/register_delegate_keys/src/main.rs, from
--     their parsed arguments on.
--   Outcome, Io: a function ends with a value, an error or a panic; an asynchronous one also extends the
--     history of its calls. Each answer of a node is a function of the whole history before it, so it
--     may change between two calls in any way, as when another relayer acts in between.
--   Float, Words, Bytes, Dict: `f32` as far as it is computed with, `u64`, byte strings, and the maps
--     of the standard library. Error is `PeggyError`.
--   Crates: the crates num256 and clarity, as records of their functions with the documented laws.
--
-- Numbers: a `Uint256` is a natural number, a `u64` keeps its wrap-around in sums and products. An
-- `f32` is a number over a power of two, and each operation rounds to 24 bits, ties to even. A body of
-- a loop over a list is a function by recursion on the list. The search for the current validator set
-- counts rounds; as many rounds as the number of the latest block are allowed, and since every round
-- goes to an earlier block, the loop ends within them. The padding of `downcast_nonce` runs eight
-- rounds, which fill eight bytes from none; the one of `send_to_cosmos` runs 32.
--
-- The waits for the Cosmos chain are given a number of rounds too, and Waiting/Ending says that one
-- round more than the seconds of the timeout suffices.
--
-- The endless loops of the oracle, the signer and the relayer are run for a number of rounds, which is
-- any number in the theorems. The resync retries without an end while a node fails; it is given a
-- number of attempts, returns `none` when they are used up, and Resync/Ending says how many suffice.
--
-- Not modelled: the texts of the log and of errors, except where computing them makes a call or can
-- panic; the time that a round sleeps; the parsing of command lines; the libraries deep_space and
-- contact, of which the repository holds copies, with their keys, mnemonics and the client of the Cosmos
-- chain; the modules of the chain in Go and the contract in Solidity, which are other programs. The
-- encoding of ABI tokens, digests and signatures belong to other crates and are arguments.
pub mod Abi
pub mod Batches
pub mod Bytes
pub mod Claims
pub mod Client
pub mod Coins
pub mod Crates
pub mod Deposit
pub mod Dict
pub mod Error
pub mod Ethereum
pub mod Events
pub mod Float
pub mod Io
pub mod MainLoop
pub mod Oracle
pub mod Order
pub mod Outcome
pub mod Prelude
pub mod Queries
pub mod Relayer
pub mod Resync
pub mod Send
pub mod SignMsg
pub mod Sorting
pub mod Submit
pub mod Valset
pub mod Waiting
pub mod Words
