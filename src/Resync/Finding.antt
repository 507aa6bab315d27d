-- ===== src/Resync/Finding.antt =====
-- The resync returns the block of the event with the chain's last nonce for us.
use minter_hub.Io.{History, Io}
use minter_hub.Oracle.{Oracle, get_last_event_nonce}
use minter_hub.Outcome.{ok}
use minter_hub.Prelude.{ℕ, ◌+◌, ◌≡◌, ◌⊎◌}
use minter_hub.Resync.Locating.{Located}
use minter_hub.Valset.{CosmosAddress}

module _ (o : Oracle) where
  -- The end of the search, from the nonce.
  abbrev Ends : ℕ → ℕ → ℕ → Type 0
  Ends nonce block latest_block =
      (nonce ≡ 0) × (block ≡ latest_block) ⊎ Located o nonce block latest_block

  -- The part behind the number of the newest block.
  abbrev Starts : CosmosAddress → ℕ → ℕ → Type 0
  Starts us newest block =
      (latest_block : ℕ) × (nonce : ℕ) × (h₂ : History) × (newest ≡ latest_block + 5)
      × ((get_last_event_nonce o us h₂).0 ≡ ok nonce)
      × Ends nonce block latest_block
