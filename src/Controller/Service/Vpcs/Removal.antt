-- ===== src/Controller/Service/Vpcs/Removal.antt =====
-- controller/internal/service/vpc.go: what becomes of a VPC that instances still use.
use rig_stack.Prelude.{String, ◌==◌, true, none, some, [], ◌∷◌, ◌++◌, any, ◌≡◌, refl, eq_refl}
use rig_stack.Client.Http.{ok, err}
use rig_stack.Controller.Tables.{NodeRow, VpcRow, InstanceRow, Db, Env}
use rig_stack.Controller.Store.Vpcs
use rig_stack.Controller.Dispatcher.{Command, Queues, pending, enqueue}
use rig_stack.Controller.Dispatcher.Delivery.{pending-enqueue}
use rig_stack.Controller.Scheduler.{pick_node}
use rig_stack.Controller.Service.{System}
use rig_stack.Controller.Service.Vpcs.{payload, notify, delete}

abbrev pub removal : VpcRow → Command
removal vpc = record { kind = "delete_vpc"; payload = payload vpc.id vpc.cidr }

removal_refused :
    (id : String) (db : Db)
    → any (λ (i : InstanceRow). i.vpc_id == id) db.instances ≡ true
    → Vpcs.delete id db ≡ none
unfolding Vpcs.delete
removal_refused id db used = rw used

pub notified :
    (env : Env) (cmd : Command) (db : Db) (queues : Queues) (node : NodeRow)
    → pick_node env 0 db ≡ ok node
    → notify env cmd db queues ≡ enqueue node.id cmd queues
unfolding notify
notified env cmd db queues node chosen = rw (notify, chosen)

-- The deletion of a VPC that is there and that an instance refers to, while a node can be chosen:
-- the caller gets the error of the database, which does not change, and yet the node has the command
-- to delete the VPC behind those that it had.
pub refused_removal_commanded :
    (env : Env) (vpc : VpcRow) (node : NodeRow) (sys : System)
    → Vpcs.get vpc.id sys.db ≡ some vpc
    → any (λ (i : InstanceRow). i.vpc_id == vpc.id) sys.db.instances ≡ true
    → pick_node env 0 sys.db ≡ ok node
    → ((delete env vpc.id sys).0 ≡ err env.refused)
      × ((delete env vpc.id sys).1.db ≡ sys.db)
      × (pending node.id (delete env vpc.id sys).1.queues
          ≡ pending node.id sys.queues ++ (removal vpc ∷ []))
unfolding delete
refused_removal_commanded env vpc node sys there used chosen =
    rw
      (
        delete,
        there,
        removal_refused vpc.id sys.db used,
        notified env (removal vpc) sys.db sys.queues node chosen,
      )
      (refl, refl, rw (pending-enqueue node.id node.id (removal vpc) sys.queues, eq_refl node.id))
