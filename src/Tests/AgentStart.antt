-- ===== src/Tests/AgentStart.antt =====
-- What the agent of a small node reports of it, and the networks that it makes.
use rig_stack.Prelude.{◌*◌, ◌/◌, ◌≤◌, true, false, [], ◌∷◌, ◌≡◌, refl, arith}
use rig_stack.Prelude.Text.{decimal}
use rig_stack.Controller.Tables.{InstanceRow}
use rig_stack.Controller.Service.{System}
use rig_stack.Controller.Store.Nodes.{Load}
use rig_stack.Controller.Store.Instances as Rows
use rig_stack.Agent.Host.{
  sleep, list_active, ask_free, ask_info, Host, returned, list_domains, ask_state, reports,
}
use rig_stack.Agent.Domain.{hex_digit, hex_byte}
use rig_stack.Agent.Libvirt.{domain_state_string}
use rig_stack.Agent.Network.{create_vpc, delete_vpc, bridge_name}
use rig_stack.Agent.Network.Vpcs.{Made, Gone, vpc_bridge}
use rig_stack.Agent.Reconcile.{VmInfo, list_vm_infos, infos_of, uuid_text, hex, reconcile}
use rig_stack.Agent.Reconcile.Restored.{absent_unchanged}
use rig_stack.Agent.Executor.Settling.{told}
use rig_stack.Agent.Metrics.{collect_stats}
use rig_stack.Agent.Metrics.Within.{load_within}
use rig_stack.Tests.Cloud.{env, web, cloud, sys}
use rig_stack.Tests.Node.{node, machine}

abbrev well : Host
well = node (λ act. false)

abbrev seen_machine : VmInfo
seen_machine = record {
  id = "0c1d2e3f-4a5b-4c6d-8e9f-0a1b2c3d4e5f";
  name = "web";
  status = "stopped";
}

abbrev kept_row : InstanceRow
kept_row = record web { id = "0c1d2e3f-4a5b-4c6d-8e9f-0a1b2c3d4e5f"; status = "running" }

abbrev kept_sys : System
kept_sys = record sys { db = record cloud { instances = kept_row ∷ web ∷ [] } }

listed :
    list_vm_infos well (sleep 5 ∷ [])
    ≡ (returned (seen_machine ∷ []), ask_state "web" ∷ list_domains ∷ sleep 5 ∷ [])
unfolding list_vm_infos infos_of uuid_text hex hex_byte hex_digit decimal domain_state_string
listed = refl

absent_unchanged_example :
    Rows.get "vm-1" (told env (reports (reconcile true well []).1) kept_sys).db
    ≡ Rows.get "vm-1" kept_sys.db
absent_unchanged_example =
    absent_unchanged env well kept_sys "vm-1" (seen_machine ∷ [])
      (ask_state "web" ∷ list_domains ∷ sleep 5 ∷ []) listed (refl, tt)

load_within_example :
    (load : Load) × (collect_stats true well []
      ≡ (returned load, list_active ∷ ask_free ∷ ask_info ∷ []))
    × (load.cpu_free ≡ 4294967296 * 100 / (16777216 * 1024))
    × (load.cpu_free ≤ 100)
    × (load.ram_free ≡ 4294967296)
    × (load.vm_count ≡ 1)
load_within_example =
    load_within well [] 16777216 8 4294967296 (machine ∷ []) refl refl refl (omega arith)
      (omega arith) (omega arith) (omega arith)

vpc_bridge_example :
    Made well (bridge_name "vpc-1") [] (create_vpc "eth0" "vpc-1" "10.0.0.0/24" well [])
    × Gone well (bridge_name "vpc-1") (delete_vpc "eth0" "vpc-1" "10.0.0.0/24" well [])
vpc_bridge_example = vpc_bridge well "eth0" "vpc-1" "10.0.0.0/24" []
