-- ===== src/Words.antt =====
-- Machine integers of the orchestrator: a `u64` and a `usize` (on a 64-bit target) are natural
-- numbers below 2 ^ 64, and their sums and products wrap, as they do in the release profile.
use minter_hub.Prelude.{ℕ, ◌+◌, ◌*◌, ◌%◌}

-- `u64::MAX` and `usize::MAX`.
abbrev pub u64_max : ℕ
u64_max = 18446744073709551615

abbrev pub add_u64 : ℕ → ℕ → ℕ
add_u64 a b = (a + b) % 18446744073709551616

abbrev pub mul_u64 : ℕ → ℕ → ℕ
mul_u64 a b = (a * b) % 18446744073709551616
