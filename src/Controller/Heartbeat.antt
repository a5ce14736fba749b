-- ===== src/Controller/Heartbeat.antt =====
-- controller/internal/grpcserver/server.go: what the nodes call. A call of the store that fails for
-- the loss of the connection is not modelled.
pub mod Sending
use rig_stack.Prelude.{String, Option, none, some, List, [], ◌∷◌, truthy, if◌then◌else◌}
use rig_stack.Client.Http.{Result, ok, err}
use rig_stack.Controller.Tables.{NodeRow, Db, Env}
use rig_stack.Controller.Store.Nodes.{Load, upsert, update_heartbeat, mark_unreachable}
use rig_stack.Controller.Store.Instances.{update_vm_status}
use rig_stack.Controller.Dispatcher.{Command, drain}
use rig_stack.Controller.Service.{System}

-- `RegisterNode`: the id, and the system.
unfoldable pub register_node : Env → String → NodeRow → System → String × System
register_node env fresh info sys =
    let (id, db) = upsert env fresh info sys.db in (id, record sys { db = db })

-- What `stream.Recv` returns: the end, an error, or a request, which goes with what `stream.Send`
-- makes of the response: the error if it fails.
pub data Received : Type 0 where
  closed : Received
  broken : String → Received
  beat : String → Load → Option String → Received

-- What a run of the stream leaves: the result of the handler, or none while it waits; the commands
-- of the responses that were sent; and the system.
pub record Outcome : Type 0 where
  pub result : Option (Result (Unit {0}))
  pub sent : List (List Command)
  pub sys : System

-- A node is marked only if a request has named it.
unfoldable pub lose : String → System → System
lose node_id sys =
    if truthy node_id then record sys { db = mark_unreachable node_id sys.db } else sys

-- The system after a request, whose commands are then sent.
unfoldable pub beaten_by : Env → String → Load → System → System
beaten_by env node_id l sys = record {
  db = update_heartbeat env node_id l sys.db;
  queues = (drain node_id sys.queues).1;
}

abbrev pub sent_before : List Command → Outcome → Outcome
sent_before cmds o = record o { sent = cmds ∷ o.sent }

-- The loop of `Heartbeat`, on what the stream gives it, with `nodeID` as its state.
unfoldable pub heartbeat : Env → List Received → String → System → Outcome
unfolding lose beaten_by
heartbeat env [] node_id sys = record { result = none; sent = []; sys = sys }
heartbeat env (closed ∷ more) node_id sys = record { result = some (ok tt); sent = []; sys = sys }
heartbeat env (broken m ∷ more) node_id sys = record {
  result = some (err m);
  sent = [];
  sys = lose node_id sys;
}
heartbeat env (beat id l (some m) ∷ more) node_id sys = record {
  result = some (err m);
  sent = [];
  sys = beaten_by env id l sys;
}
heartbeat env (beat id l none ∷ more) node_id sys =
    sent_before (drain id sys.queues).0 (heartbeat env more id (beaten_by env id l sys))

-- `ReportVMStatus`.
unfoldable pub report_vm_status : Env → String → String → String → System → System
report_vm_status env vm_id status ip sys = record sys {
  db = update_vm_status env vm_id status ip sys.db;
}
