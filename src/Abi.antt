-- ===== src/Abi.antt =====
-- The words of the Ethereum ABI, in which a contract writes a number or an address, and their
-- readers. They describe what the parsers of events are given.
use minter_hub.Bytes.{Bytes, be_bytes}
use minter_hub.Bytes.Slices.{slice_word}
use minter_hub.Bytes.Words.{be_value-be_bytes, length-be_bytes}
use minter_hub.Crates.{Clarity, Num256}
use minter_hub.Events.{address_of_topic}
use minter_hub.Outcome.{ok}
use minter_hub.Prelude.{
  ap, arith, drop, length, length-append, refl, replicate, ℕ, ◌++◌, ◌<◌, ◌^◌, ◌∙◌, ◌≡◌,
}

-- A `uint256`.
abbrev pub word : ℕ → Bytes
word n = be_bytes 32 n

-- An `address`: its twenty bytes behind twelve zeros.
abbrev pub address_word : ℕ → Bytes
address_word a = replicate 12 0 ++ be_bytes 20 a

pub length-word : (n : ℕ) → length (word n) ≡ 32
length-word n = length-be_bytes 32 n

pub length-address_word : (a : ℕ) → length (address_word a) ≡ 32
length-address_word a =
    omega (arith, length-append (replicate 12 0) (be_bytes 20 a), length-be_bytes 20 a)

pub drop-address_word : (a : ℕ) → drop 12 (address_word a) ≡ be_bytes 20 a
drop-address_word a = refl

module _ (num : Num256) (eth : Clarity) where
  pub from_bytes_be-word : (n : ℕ) → n < 2 ^ 256 → num.from_bytes_be (word n) ≡ n
  from_bytes_be-word n h = num.from_bytes_be_lem (word n) ∙ be_value-be_bytes 32 n (omega arith)

  pub from_slice-address : (a : ℕ) → a < 2 ^ 160 → eth.from_slice (be_bytes 20 a) ≡ ok a
  from_slice-address a h =
      eth.from_slice_lem (be_bytes 20 a) (length-be_bytes 20 a)
      ∙ ap ok (be_value-be_bytes 20 a (omega arith))

  pub address_of_topic-address_word :
      (a : ℕ) → a < 2 ^ 160 → address_of_topic eth (address_word a) ≡ ok a
  unfolding address_of_topic
  address_of_topic-address_word a h =
      rw
        (
          slice_word 12 (address_word a) (length-address_word a) (omega arith),
          from_slice-address a h,
        )
        refl
