-- ===== src/Controller/Runs/Referring.antt =====
-- controller/internal: what holds in every state that the controller can come to.
use rig_stack.Controller.Service.{System}
use rig_stack.Controller.Runs.{
  Step, Steps, here, next, vpc_created, vpc_deleted, created, started, stopped, deleted, deployed,
  node_deleted, registered, streamed, reported,
}
use rig_stack.Controller.Runs.Services.{
  IsSound, create_vpc-IsSound, delete_vpc-IsSound, create-IsSound, start-IsSound, stop-IsSound,
  delete-IsSound, deploy-IsSound, delete_node-IsSound, register_node-IsSound,
  report_vm_status-IsSound, heartbeat-IsSound,
}

step-IsSound : {s u : System} → Step s u → IsSound s → IsSound u
step-IsSound (vpc_created env fresh name cidr sys) h = create_vpc-IsSound env sys h fresh name cidr
step-IsSound (vpc_deleted env id sys) h = delete_vpc-IsSound env sys h id
step-IsSound (created env fresh password req sys) h = create-IsSound env sys h fresh password req
step-IsSound (started env id sys) h = start-IsSound env sys h id
step-IsSound (stopped env id sys) h = stop-IsSound env sys h id
step-IsSound (deleted env id sys) h = delete-IsSound env sys h id
step-IsSound (deployed env id sys) h = deploy-IsSound env sys h id
step-IsSound (node_deleted env id sys) h = delete_node-IsSound env sys h id
step-IsSound (registered env fresh info sys) h = register_node-IsSound env sys h fresh info
step-IsSound (streamed env received node_id sys) h = heartbeat-IsSound env received node_id sys h
step-IsSound (reported env vm_id status ip sys) h =
    report_vm_status-IsSound env sys h vm_id status ip

-- From a state in which the node and the VPC of each instance are there, where it has them, the
-- controller comes only to states in which they are there, by any calls of its services and of its
-- nodes in any order.
pub runs-IsSound : {s u : System} → Steps s u → IsSound s → IsSound u
runs-IsSound here h = h
runs-IsSound (next r a) h = step-IsSound a (runs-IsSound r h)
