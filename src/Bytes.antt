-- ===== src/Bytes.antt =====
-- Byte strings: slices as Rust takes them, with the panic of a range that does not fit, and numbers
-- in big-endian order.
pub mod Words
pub mod Slices
use minter_hub.Outcome.{Outcome, ok, panic}
use minter_hub.Prelude.{
  List, [], drop, if◌then◌else◌, leb, length, suc, take, zero, ℕ, ◌%◌, ◌&&◌, ◌*◌, ◌++◌, ◌+◌, ◌-◌,
  ◌/◌, ◌∷◌,
}

abbrev pub Bytes : Type 0
Bytes = List ℕ

-- `data[start..end]`
unfoldable pub slice : {E : Type 0} → Bytes → ℕ → ℕ → Outcome E Bytes
slice bytes start stop =
    if leb start stop && leb stop (length bytes)
    then ok (take (stop - start) (drop start bytes))
    else panic

-- The number that bytes spell in big-endian order, behind a prefix that spells `acc`.
abbrev pub be_value_from : ℕ → Bytes → ℕ
be_value_from acc [] = acc
be_value_from acc (b ∷ bytes) = be_value_from (acc * 256 + b) bytes

unfoldable pub be_value : Bytes → ℕ
be_value bytes = be_value_from 0 bytes

-- The last `k` bytes of a number.
unfoldable pub be_bytes : ℕ → ℕ → Bytes
be_bytes zero n = []
be_bytes (suc k) n = be_bytes k (n / 256) ++ (n % 256) ∷ []

-- The pieces one after the other.
abbrev pub concat : List Bytes → Bytes
concat [] = []
concat (c ∷ rest) = c ++ concat rest
