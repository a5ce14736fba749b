-- ===== src/Controller/Heartbeat/Sending.antt =====
-- controller/internal/grpcserver/server.go: which commands reach a node.
use rig_stack.Prelude.{
  suc, length, ◌↔◌, ◌==◌, String, true, false, none, some, List, [], ◌∷◌, ◌++◌, All, ◌≡◌, refl, ap,
  eq_refl,
}
use rig_stack.Client.Http.{ok, err}
use rig_stack.Controller.Tables.{InstanceRow, Env, no_trouble}
use rig_stack.Controller.Store.Instances as Rows
use rig_stack.Controller.Store.Nodes.{Load}
use rig_stack.Controller.Dispatcher.{pending, drain}
use rig_stack.Controller.Dispatcher.Delivery.{pending-enqueue, pending-remove_key}
use rig_stack.Controller.Instances.{CreateRequest}
use rig_stack.Controller.Service.{System}
use rig_stack.Controller.Service.Instances.{Place, find_place, create_vm, create}
use rig_stack.Controller.Service.Instances.Placement.{created}
use rig_stack.Controller.Heartbeat.{Received, closed, broken, beat, beaten_by, heartbeat}

drain-nothing :
    (env : Env) (id : String) (l : Load) (sys : System)
    → pending id (beaten_by env id l sys).queues ≡ []
unfolding beaten_by drain
drain-nothing env id l sys = rw (pending-remove_key id id sys.queues, eq_refl id)

created_waits :
    (env : Env) (fresh password : String) (req : CreateRequest) (sys : System) (p : Place)
    → All (λ (i : InstanceRow). (i.id == fresh) ≡ false) sys.db.instances
    → find_place env req sys.db ≡ ok p
    → env.trouble ≡ no_trouble
    → Rows.fits req.vcpus req.ram_mb req.disk_gb ≡ true
    → pending p.node.id (create env fresh password req sys).1.queues
      ≡ pending p.node.id sys.queues ++ (create_vm fresh password req p ∷ [])
created_waits env fresh password req sys p new h calm fits = rw (
  created env fresh password req sys p new h calm fits,
  pending-enqueue p.node.id p.node.id (create_vm fresh password req p) sys.queues,
  eq_refl p.node.id,
)

-- After an instance was created, under an id that no instance had, with no statement that failed and
-- numbers that fit their columns, the next request of its node on
-- an open stream, if its response is sent, brings the node the commands that waited for it and
-- behind them the one that creates the machine; then none waits.
pub created_is_sent :
    (env : Env) (fresh password node_id : String) (req : CreateRequest) (l : Load) (sys : System)
    (p : Place)
    → All (λ (i : InstanceRow). (i.id == fresh) ≡ false) sys.db.instances
    → find_place env req sys.db ≡ ok p
    → env.trouble ≡ no_trouble
    → Rows.fits req.vcpus req.ram_mb req.disk_gb ≡ true
    → ((heartbeat env
          (beat p.node.id l none ∷ [])
          node_id
          (create env fresh password req sys).1).sent
        ≡ (pending p.node.id sys.queues ++ (create_vm fresh password req p ∷ [])) ∷ [])
      × (pending p.node.id
            (heartbeat env
              (beat p.node.id l none ∷ [])
              node_id
              (create env fresh password req sys).1).sys.queues
          ≡ [])
unfolding heartbeat drain
created_is_sent env fresh password node_id req l sys p new h calm fits = (
  ap (λ cmds. cmds ∷ []) (created_waits env fresh password req sys p new h calm fits),
  drain-nothing env p.node.id l (create env fresh password req sys).1,
)

-- If the response to a request is not sent, the commands that waited for the node are sent to no one
-- and wait no longer, and the handler returns the error.
pub unsent_is_lost :
    (env : Env) (id node_id m : String) (l : Load) (more : List Received) (sys : System)
    → ((heartbeat env (beat id l (some m) ∷ more) node_id sys).result ≡ some (err m))
      × ((heartbeat env (beat id l (some m) ∷ more) node_id sys).sent ≡ [])
      × (pending id (heartbeat env (beat id l (some m) ∷ more) node_id sys).sys.queues ≡ [])
unfolding heartbeat
unsent_is_lost env id node_id m l more sys = (refl, refl, drain-nothing env id l sys)

-- A request whose response is sent.
abbrev pub IsAnswered : Received → Type 0
IsAnswered closed = ⊥
IsAnswered (broken m) = ⊥
IsAnswered (beat id l none) = Unit
IsAnswered (beat id l (some m)) = ⊥

-- The handler of a stream waits exactly as long as it has only had requests whose responses were
-- sent, and then it has sent one response to each; an end of the stream, an error and a response that
-- is not sent each make it return.
pub heartbeat_returns :
    (env : Env) (received : List Received) (node_id : String) (sys : System)
    → (((heartbeat env received node_id sys).result ≡ none) ↔ All IsAnswered received)
      × ((heartbeat env received node_id sys).result ≡ none
          → length (heartbeat env received node_id sys).sent ≡ length received)
unfolding heartbeat
heartbeat_returns env [] node_id sys = ((λ e. tt, λ h. refl), λ e. refl)
heartbeat_returns env (closed ∷ more) node_id sys = ((λ e. cc, λ h. absurd h.0), λ e. cc)
heartbeat_returns env (broken m ∷ more) node_id sys = ((λ e. cc, λ h. absurd h.0), λ e. cc)
heartbeat_returns env (beat id l (some m) ∷ more) node_id sys =
    ((λ e. cc, λ h. absurd h.0), λ e. cc)
heartbeat_returns env (beat id l none ∷ more) node_id sys =
    let ((waits, answered), counted) = heartbeat_returns env more id (beaten_by env id l sys) in
    ((λ e. (tt, waits e), λ h. answered h.1), λ e. ap suc (counted e))
