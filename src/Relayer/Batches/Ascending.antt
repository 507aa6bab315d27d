-- ===== src/Relayer/Batches/Ascending.antt =====
-- The order in which a round relays the batches.
use minter_hub.Prelude.{List}
use minter_hub.Relayer.{Relayer}
