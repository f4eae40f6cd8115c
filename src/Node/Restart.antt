-- ===== src/Node/Restart.antt =====
-- `run_node` of crates/node/src/main.rs, started again after blocks were committed.
use nbnet.Std.Files.{Files}
use nbnet.Types.Genesis
