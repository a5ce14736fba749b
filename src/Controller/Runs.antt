-- ===== src/Controller/Runs.antt =====
-- controller/internal: what the controller does over time: calls of its services by the handlers, and
-- calls of the nodes, in any order. Each is one step; a stream may come in parts, each with the
-- `nodeID` that the last one left.
pub mod Services
pub mod Referring
use rig_stack.Prelude.{String, List}
use rig_stack.Controller.Tables.{NodeRow, Env}
use rig_stack.Controller.Instances.{CreateRequest}
use rig_stack.Controller.Service.{System}
use rig_stack.Controller.Service.Vpcs as Vpcs
use rig_stack.Controller.Service.Instances as Instances
use rig_stack.Controller.Service.Images as Images
use rig_stack.Controller.Heartbeat.{Received, register_node, heartbeat, report_vm_status}

pub data Step : System → System → Type 0 where
  vpc_created :
      (env : Env) (fresh name cidr : String) (sys : System)
      → Step sys (Vpcs.create env fresh name cidr sys).1
  vpc_deleted : (env : Env) (id : String) (sys : System) → Step sys (Vpcs.delete env id sys).1
  created :
      (env : Env) (fresh password : String) (req : CreateRequest) (sys : System)
      → Step sys (Instances.create env fresh password req sys).1
  started : (env : Env) (id : String) (sys : System) → Step sys (Instances.start env id sys).1
  stopped : (env : Env) (id : String) (sys : System) → Step sys (Instances.stop env id sys).1
  deleted : (env : Env) (id : String) (sys : System) → Step sys (Instances.delete env id sys).1
  deployed : (env : Env) (id : String) (sys : System) → Step sys (Images.deploy env id sys).1
  node_deleted :
      (env : Env) (id : String) (sys : System) → Step sys (Images.delete_node env id sys).1
  registered :
      (env : Env) (fresh : String) (info : NodeRow) (sys : System)
      → Step sys (register_node env fresh info sys).1
  streamed :
      (env : Env) (received : List Received) (node_id : String) (sys : System)
      → Step sys (heartbeat env received node_id sys).sys
  reported :
      (env : Env) (vm_id status ip : String) (sys : System)
      → Step sys (report_vm_status env vm_id status ip sys)

pub data Steps (s : System) : System → Type 0 where
  here : Steps s s
  next : {u v : System} → Steps s u → Step u v → Steps s v
