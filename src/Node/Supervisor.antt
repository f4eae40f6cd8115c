-- ===== src/Node/Supervisor.antt =====
-- crates/node/src/main.rs: how a node ends. Of the tasks that `run_node` waits for, the first that ends
-- decides.
use nbnet.Prelude.{Result, ok, err}
use nbnet.Std.Files.{Fault}
use nbnet.Node.Init.{Exit, returned, exited}

-- The branches of `select!`: a task that is joined may have ended or panicked.
pub data Event : Type 0 where
  engine_returned : Event
  network_ended rpc_ended sync_responder_ended : (panicked : Result (Unit {0}) Fault) → Event
  ctrl_c : Event
  sigterm : Event

unfoldable pub supervise : Event → Exit
supervise engine_returned = returned
supervise (network_ended res) = exited 1
supervise (rpc_ended res) = exited 1
supervise (sync_responder_ended res) = exited 1
supervise ctrl_c = returned
supervise sigterm = returned

-- `Command::Node`: a start that fails ends the process, and so does what the supervisor sees.
unfoldable pub node_command {ℓ} : {A : Type ℓ} → Result A Fault → Event → Exit
node_command (err e) event = exited 1
node_command (ok running) event = supervise event
