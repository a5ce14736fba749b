-- ===== src/Tests/CloudRuns.antt =====
-- Runs of the controller on the small cloud: its queues, its nodes and their streams.
use mathlib.Core.List.{Memᴰ}
use rig_stack.Prelude.{
  ◌<◌, ◌≤◌, String, true, false, none, some, List, [], ◌∷◌, ◌++◌, All, ◌≡◌, ◌⊎◌, refl,
}
use rig_stack.Client.Http.{ok, err}
use rig_stack.Controller.Tables.{NodeRow}
use rig_stack.Controller.Store.{find_row}
use rig_stack.Controller.Store.Nodes.{is_healthy}
use rig_stack.Controller.Dispatcher.{pending}
use rig_stack.Controller.Dispatcher.Delivery.{
  Call, enqueue_to, drain_of, run_calls, delivered, put_in, delivered_in_order,
}
use rig_stack.Controller.Scheduler.{pick_node}
use rig_stack.Controller.Scheduler.Choice.{pick_node_lem}
use rig_stack.Controller.Service.Instances.{Place, find_place, create_vm, create}
use rig_stack.Controller.Service.Instances.Placement.{Placed, create_whole}
use rig_stack.Controller.Heartbeat.{Received, closed, beat, heartbeat}
use rig_stack.Controller.Heartbeat.Sending.{created_is_sent, unsent_is_lost}
use rig_stack.Controller.Runs.{Steps, here, next, created, vpc_deleted}
use rig_stack.Controller.Runs.Services.{IsSound}
use rig_stack.Controller.Runs.Referring.{runs-IsSound}
use rig_stack.Controller.Service.{System}
use rig_stack.Tests.Cloud.{env, cloud, reload, sys, request, spot, load, found_spot, request_fits}
use rig_stack.Controller.Store.Instances as Rows
use rig_stack.Controller.Service.Vpcs as VpcService

abbrev calls : List Call
calls =
    enqueue_to "node-2" reload
    ∷ enqueue_to "node-1" reload
    ∷ drain_of "node-2"
    ∷ enqueue_to "node-2" reload
    ∷ []

delivered_in_order_example :
    delivered "node-2" calls sys.queues ++ pending "node-2" (run_calls calls sys.queues)
    ≡ pending "node-2" sys.queues ++ put_in "node-2" calls
delivered_in_order_example = delivered_in_order "node-2" calls sys.queues

pick_node_lem_example :
    ((n : NodeRow) × (pick_node env 1073741824 cloud ≡ ok n)
      × Memᴰ n cloud.nodes
      × (is_healthy env n ≡ true)
      × (1073741824 ≤ n.ram_free)
      × All
          (λ m.
            (is_healthy env m ≡ false) ⊎ ((m.ram_free < 1073741824) ⊎ (m.ram_free ≤ n.ram_free)))
          cloud.nodes)
    ⊎ ((message : String) × (pick_node env 1073741824 cloud ≡ err message)
        × All (λ m. (is_healthy env m ≡ false) ⊎ (m.ram_free < 1073741824)) cloud.nodes)
pick_node_lem_example = pick_node_lem env 1073741824 cloud

create_whole_example :
    ((m : String) × (find_place env request cloud ≡ err m)
      × (create env "vm-2" "hidden" request sys ≡ (err m, sys)))
    ⊎ ((p : Place) × (find_place env request cloud ≡ ok p)
        × Placed env "vm-2" "hidden" request p sys (create env "vm-2" "hidden" request sys))
create_whole_example = create_whole env "vm-2" "hidden" request sys (refl, tt)

created_is_sent_example :
    ((heartbeat env
        (beat "node-2" load none ∷ [])
        "node-2"
        (create env "vm-2" "hidden" request sys).1).sent
      ≡ (pending "node-2" sys.queues ++ (create_vm "vm-2" "hidden" request spot ∷ [])) ∷ [])
    × (pending "node-2"
          (heartbeat env
            (beat "node-2" load none ∷ [])
            "node-2"
            (create env "vm-2" "hidden" request sys).1).sys.queues
        ≡ [])
created_is_sent_example =
    created_is_sent env "vm-2" "hidden" "node-2" request load sys spot (refl, tt) found_spot refl
      request_fits

unsent_is_lost_example :
    ((heartbeat env (beat "node-2" load (some "broken pipe") ∷ []) "node-2" sys).result
      ≡ some (err "broken pipe"))
    × ((heartbeat env (beat "node-2" load (some "broken pipe") ∷ []) "node-2" sys).sent ≡ [])
    × (pending "node-2"
          (heartbeat env (beat "node-2" load (some "broken pipe") ∷ []) "node-2" sys).sys.queues
        ≡ [])
unsent_is_lost_example = unsent_is_lost env "node-2" "node-2" "broken pipe" load [] sys

abbrev stream : List Received
stream = beat "node-2" load none ∷ beat "node-2" load none ∷ closed ∷ []

cloud-IsSound : IsSound sys
unfolding Rows.refers find_row
cloud-IsSound = (refl, tt)

abbrev after_creation : System
after_creation = (create env "vm-2" "hidden" request sys).1

a_run : Steps sys (VpcService.delete env "vpc-1" after_creation).1
a_run =
    next (next here (created env "vm-2" "hidden" request sys))
      (vpc_deleted env "vpc-1" after_creation)

runs-IsSound_example : IsSound (VpcService.delete env "vpc-1" after_creation).1
runs-IsSound_example = runs-IsSound a_run cloud-IsSound
