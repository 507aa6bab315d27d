-- ===== src/Relayer/Updating.antt =====
-- When a round of relaying validator sets sends an update.
-- What a quiet function leaves as it was.
use minter_hub.Bytes.{Bytes}
use minter_hub.Io.{Io}
use minter_hub.Relayer.{Relayer}
use minter_hub.Valset.{Valset}
