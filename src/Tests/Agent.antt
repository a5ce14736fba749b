-- ===== src/Tests/Agent.antt =====
-- Commands of the controller, carried out on a small node.
use Prim.Native.String.{count}
use rig_stack.Prelude.{◌≤◌, true, false, some, [], ◌∷◌, ◌≡◌, refl}
use rig_stack.Prelude.Text.{split_slash, decimal, take_chars}
use rig_stack.Client.Http.{ok, err}
use rig_stack.Controller.Address as Controller
use rig_stack.Controller.Service.Instances.{create_vm, start_vm, stop_vm, delete_vm, start, stop}
use rig_stack.Controller.Store.Instances as Rows
use rig_stack.Controller.Address.{address_of, allocate_ip, without_dashes}
use rig_stack.Agent.Host.{Past, Host, Outcome, returned, failed, reports}
use rig_stack.Agent.Commands.{read_create, read_vm}
use rig_stack.Agent.Commands.Understood.{creation, creation_understood}
use rig_stack.Agent.Network.{
  bridge_name, subnet_info, show_link, add_link, set_up, ensure_bridge, slug, create_bridge,
  add_masquerade,
}
use rig_stack.Agent.Network.Bridges.{same_bridge, same_gateway}
use rig_stack.Agent.Network.Ensuring.{linked, is_run, ensured_once, half_made_kept}
use rig_stack.Agent.Libvirt as Libvirt
use rig_stack.Agent.Storage.{paths_for}
use rig_stack.Agent.Executor.{
  Executor, handle, safe_image_name, all_safe, safe_char, image_path, ensure_for, started_vm,
}
use rig_stack.Agent.Executor.Reporting.{Unreported}
use rig_stack.Agent.Executor.Settling.{Settled, creation_settles, told, restart_loses_address}
use rig_stack.Agent.Executor.Stops.{Halted, stopping_row, stop_settles}
use rig_stack.Agent.Executor.Deleting.{Removed, deletion_removes}
use rig_stack.Agent.Executor.Paths.{image_in_base}
use rig_stack.Tests.Cloud.{env, net, web, sys, request, spot, found_net, found_web}
use rig_stack.Tests.Node.{node, ticking, showing, there}

abbrev well : Host
well = node (λ act. false)

abbrev agent : Executor
agent = record { net = some "eth0"; libvirt = true }

creation_understood_example :
    read_create (create_vm "vm-1" "secret" request spot).payload
    ≡ some (creation "vm-1" "secret" request spot)
creation_understood_example = creation_understood "vm-1" "secret" request spot

creation_settles_example :
    Settled env "vm-1" web sys true "10.0.0.12"
      (Unreported (creation "vm-1" "secret" request spot) well)
      (handle "bad" agent (create_vm "vm-1" "secret" request spot) well [])
creation_settles_example =
    creation_settles env "bad" "vm-1" "secret" agent request spot well web sys found_web

stop_settles_example :
    Halted env "vm-1"
      (stopping_row env web)
      (stop env "vm-1" sys).1
      well
      "web"
      true
      (handle "bad" agent (stop_vm "vm-1" web) well [])
stop_settles_example =
    stop_settles env "bad" "vm-1" agent well web sys found_web (ticking (λ act. false))

deletion_removes_example :
    Removed well true (paths_for "vm-1").dir (handle "bad" agent (delete_vm "vm-1" web) well [])
deletion_removes_example = deletion_removes "bad" "vm-1" agent well web

same_bridge_example :
    (bridge_name "0c1d2e3f-4a5b" ≡ Controller.bridge_name "0c1d2e3f-4a5b")
    × (count (bridge_name "0c1d2e3f-4a5b") ≤ 15)
same_bridge_example = same_bridge "0c1d2e3f-4a5b"

allocated : allocate_ip env sys.db net ≡ ok spot.address
unfolding allocate_ip address_of Rows.count_by_vpc decimal
allocated = refl

same_gateway_example : subnet_info well "10.0.0.0/24" ≡ ok ("10.0.0.1", 24)
same_gateway_example = same_gateway env well sys.db net spot.address refl allocated

safe : safe_image_name "debian-13" ≡ true
unfolding safe_image_name all_safe safe_char
safe = refl

image_in_base_example :
    split_slash (image_path "debian-13")
    ≡ "" ∷ "var" ∷ "lib" ∷ "rigstack" ∷ "base" ∷ "debian-13.qcow2" ∷ []
image_in_base_example = image_in_base "debian-13" safe

abbrev ensured : Host → Past → Outcome (Unit {0}) × Past
ensured host past = ensure_bridge "eth0" "vpc-1" "10.0.0.0/24" host past

made : ensured well [] ≡ (returned tt, (ensured well []).1)
unfolding ensure_bridge bridge_name slug subnet_info create_bridge add_masquerade there decimal
    without_dashes take_chars
made = refl

ensured_once_example :
    (linked well (bridge_name "vpc-1") (ensured well []).1 ≡ true)
    × (ensured well (ensured well []).1
        ≡ (returned tt, show_link (bridge_name "vpc-1") ∷ (ensured well []).1))
ensured_once_example =
    ensured_once well "eth0" "vpc-1" "10.0.0.0/24" [] (ensured well []).1 (showing (λ act. false))
      made

-- A node on which no bridge can be set up.
abbrev stuck : Host
stuck = node (is_run ("ip" ∷ "link" ∷ "set" ∷ "rs-br-vpc1" ∷ "up" ∷ []))

abbrev half_made : Past
half_made =
    set_up (bridge_name "vpc-1")
    ∷ add_link (bridge_name "vpc-1")
    ∷ show_link (bridge_name "vpc-1")
    ∷ []

bare : linked stuck (bridge_name "vpc-1") [] ≡ false
unfolding linked
bare = refl

ranged : subnet_info stuck "10.0.0.0/24" ≡ ok ("10.0.0.1", 24)
unfolding subnet_info decimal
ranged = refl

put :
    stuck.reply (show_link (bridge_name "vpc-1") ∷ []) (add_link (bridge_name "vpc-1")) ≡ ok "done"
put = refl

refused :
    stuck.reply
      (add_link (bridge_name "vpc-1") ∷ show_link (bridge_name "vpc-1") ∷ [])
      (set_up (bridge_name "vpc-1"))
    ≡ err "busy"
unfolding bridge_name slug without_dashes take_chars
refused = refl

half_made_kept_example :
    (ensured stuck [] ≡ (failed "recreate bridge: busy", half_made))
    × (ensured stuck half_made ≡ (returned tt, show_link (bridge_name "vpc-1") ∷ half_made))
half_made_kept_example =
    half_made_kept stuck "eth0" "vpc-1" "10.0.0.0/24" "10.0.0.1" "done" "busy" 24 []
      (showing (is_run ("ip" ∷ "link" ∷ "set" ∷ "rs-br-vpc1" ∷ "up" ∷ []))) bare ranged put refused

abbrev restarted : Outcome (Unit {0}) × Past
restarted = handle "bad" agent (start_vm "vm-1" web net) well []

started : restarted ≡ (returned tt, restarted.1)
unfolding handle ensure_for started_vm read_vm ensure_bridge bridge_name slug subnet_info
    create_bridge add_masquerade there decimal without_dashes take_chars Libvirt.start_vm
    Libvirt.get_domain
started = refl

restart_loses_address_example :
    Rows.get "vm-1" (told env (reports restarted.1) (start env "vm-1" sys).1).db
    ≡ some (record web { status = "running"; ip_address = ""; updated_at = 1000 })
restart_loses_address_example =
    restart_loses_address env "bad" "vm-1" agent well web net sys restarted.1 found_web found_net
      started
