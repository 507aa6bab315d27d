-- ===== src/Crates.antt =====
-- What the orchestrator uses of the crates num256 and clarity: their functions as fields, and what
-- their documentation says of them as laws.
pub mod Examples
pub mod Texts
pub mod Sums
use Prim.Native.Nat.{Ordering, compare}
use Prim.Native.String.{String}
use minter_hub.Bytes.{Bytes, be_value}
use minter_hub.Dict.{add}
use minter_hub.Outcome.{Outcome, ok}
use minter_hub.Prelude.{Option, length, none, some, suc, ℕ, ◌+◌, ◌-◌, ◌<◌, ◌^◌, ◌≡◌, ◌≤◌}
use minter_hub.Valset.{EthAddress}

-- `num256::Uint256`, whose values are natural numbers.
pub record Num256 : Type 0 where
  pub from_bytes_be : Bytes → ℕ
  pub to_bytes_be : ℕ → Bytes
  -- `+`, which panics when the sum does not fit 256 bits.
  pub add : ℕ → ℕ → Option ℕ
  -- `-`, which panics below zero.
  pub sub : ℕ → ℕ → Option ℕ
  pub from_bytes_be_lem : (bytes : Bytes) → from_bytes_be bytes ≡ be_value bytes
  pub to_bytes_be_value : (n : ℕ) → be_value (to_bytes_be n) ≡ n
  -- No leading zeros, except for the one byte of zero.
  pub to_bytes_be_short : (n k : ℕ) → n < 256 ^ suc k → length (to_bytes_be n) ≤ suc k
  pub add_fits : (a b : ℕ) → a + b < 2 ^ 256 → add a b ≡ some (a + b)
  pub sub_fits : (a b : ℕ) → b ≤ a → sub a b ≡ some (a - b)
  pub sub_underflows : (a b : ℕ) → a < b → sub a b ≡ none
  pub add_overflows : (a b : ℕ) → 2 ^ 256 ≤ a + b → add a b ≡ none

-- `clarity::Address` and the hexadecimal texts of clarity.
pub record Clarity : Type 0 where
  pub from_slice : Bytes → Outcome String EthAddress
  pub parse_address : String → Outcome String EthAddress
  pub address_to_string : EthAddress → String
  pub bytes_to_hex_str : Bytes → String
  -- `cmp`, which compares the bytes from the first on.
  pub address_cmp : EthAddress → EthAddress → Ordering
  pub address_cmp_lem : (a b : EthAddress) → address_cmp a b ≡ compare a b
  pub from_slice_lem : (bytes : Bytes) → length bytes ≡ 20 → from_slice bytes ≡ ok (be_value bytes)
