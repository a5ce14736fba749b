-- ===== src/Tests/CloudCalls.antt =====
-- Calls of the services and of a handler on the small cloud, and the addresses that they give.
use rig_stack.Prelude.{
  arith, ℕ, ◌≤◌, ◌%◌, String, true, false, none, some, [], ◌∷◌, ◌++◌, ◌≡◌, ◌↔◌, ◌⊎◌, refl, ◌≢◌,
}
use rig_stack.Prelude.Text.{decimal}
use rig_stack.Client.Http.{response, req, ok, err}
use rig_stack.Controller.Tables.{NodeRow, Db}
use rig_stack.Controller.Dispatcher.{pending, enqueue}
use rig_stack.Controller.Scheduler.{pick_node}
use rig_stack.Controller.Address.{dotted, Address, address_of, allocate_ip}
use rig_stack.Controller.Address.Range.{address_within, same_address}
use rig_stack.Controller.Service.Vpcs.Removal.{removal, refused_removal_commanded}
use rig_stack.Controller.Service.Instances.{Place, find_place, create, delete}
use rig_stack.Controller.Service.Instances.Placement.{placed_row}
use rig_stack.Controller.Service.Instances.Addresses.{address_reused}
use rig_stack.Client.Endpoints.{CreateData, create_json}
use rig_stack.Controller.Service.Vpcs.Creation.{creation, vpc_row, with_vpc, create_vpc_whole}
use rig_stack.Controller.Api.{create_instance, instance_response}
use rig_stack.Controller.Api.Answers.{creation_answered}
use rig_stack.Tests.Cloud.{
  env, large, net, web, cloud, sys, request, spot, found_spot, request_fits, found_web, found_net,
  best_of_all,
}
use rig_stack.Controller.Store.Instances as Rows
use rig_stack.Controller.Service.Vpcs as VpcService

refused_removal_commanded_example :
    ((VpcService.delete env "vpc-1" sys).0 ≡ err "violates foreign key constraint")
    × ((VpcService.delete env "vpc-1" sys).1.db ≡ cloud)
    × (pending "node-2" (VpcService.delete env "vpc-1" sys).1.queues
        ≡ pending "node-2" sys.queues ++ (removal net ∷ []))
refused_removal_commanded_example =
    refused_removal_commanded env net large sys found_net refl best_of_all

abbrev emptied : Db
emptied = record cloud { instances = [] }

abbrev first_address : Address
first_address = record { ip = "10.0.0.11"; prefix = 24; gateway = "10.0.0.1" }

first_allocated : allocate_ip env emptied net ≡ ok first_address
unfolding allocate_ip address_of Rows.count_by_vpc decimal
first_allocated = refl

second_allocated : allocate_ip env cloud net ≡ ok spot.address
unfolding allocate_ip address_of Rows.count_by_vpc decimal
second_allocated = refl

same_address_example :
    (first_address.ip ≡ spot.address.ip)
    ↔ (Rows.count_by_vpc "vpc-1" emptied % 256 ≡ Rows.count_by_vpc "vpc-1" cloud % 256)
same_address_example =
    same_address env net emptied cloud first_address spot.address first_allocated second_allocated

address_reused_example :
    ((delete env "vm-1" (create env "vm-2" "hidden" request sys).1).0 ≡ ok tt)
    × (Rows.get "vm-2" (delete env "vm-1" (create env "vm-2" "hidden" request sys).1).1.db
        ≡ some (placed_row env "vm-2" "hidden" request spot))
    × (allocate_ip env (delete env "vm-1" (create env "vm-2" "hidden" request sys).1).1.db net
        ≡ ok spot.address)
address_reused_example =
    address_reused env "vm-2" "hidden" "vm-1" request sys spot web (refl, tt) found_spot found_web
      refl refl refl request_fits

abbrev clock : ℕ → String
clock t = "1970-01-01T00:16:40Z"

abbrev data_of_db : CreateData
data_of_db = record {
  name = "db";
  vpc_id = "vpc-1";
  vcpus = 2;
  ram_mb = 1024;
  disk_gb = 20;
  os_image = "debian-13";
  ssh_pubkey = none;
}

creation_answered_example :
    let answered = create_instance clock env "EOF" "vm-2" "hidden" (create_json data_of_db) sys in
    ((m : String) × (req "null" (response answered.0) ≡ err m)
      × (answered.1 ≡ sys)
      × ((find_place env request cloud ≡ err m)
          ⊎ ((m ≡ "create instance: is greater than maximum value for int4")
              × (Rows.fits 2 1024 20 ≡ false))))
    ⊎ ((p : Place) × (find_place env request cloud ≡ ok p)
        × (Rows.fits 2 1024 20 ≡ true)
        × (req "null" (response answered.0)
            ≡ ok (some (instance_response clock env "" (placed_row env "vm-2" "hidden" request p))))
        × (answered.1.db.instances ≡ placed_row env "vm-2" "hidden" request p ∷ web ∷ []))
creation_answered_example =
    creation_answered clock env "null" "EOF" "vm-2" "hidden" data_of_db sys (refl, refl, refl)
      (refl, tt) refl

create_vpc_whole_example :
    ((m : String) × (VpcService.create env "vpc-2" "lab" "10.0.0.0/24" sys ≡ (err m, sys))
      × ((env.parse_cidr "10.0.0.0/24" ≡ none) ⊎ (env.cidr_column "10.0.0.0/24" ≡ none)))
    ⊎ ((kept : String) × (env.cidr_column "10.0.0.0/24" ≡ some kept)
        × ((VpcService.create env "vpc-2" "lab" "10.0.0.0/24" sys).0
            ≡ ok (vpc_row env "vpc-2" "lab" kept))
        × ((VpcService.create env "vpc-2" "lab" "10.0.0.0/24" sys).1.db
            ≡ with_vpc (vpc_row env "vpc-2" "lab" kept) cloud)
        × (((node : NodeRow) × (pick_node env 0 (with_vpc (vpc_row env "vpc-2" "lab" kept) cloud)
                ≡ ok node)
              × ((VpcService.create env "vpc-2" "lab" "10.0.0.0/24" sys).1.queues
                  ≡ enqueue node.id (creation "vpc-2" "10.0.0.0/24") sys.queues))
            ⊎ ((m : String) × (pick_node env 0 (with_vpc (vpc_row env "vpc-2" "lab" kept) cloud)
                  ≡ err m)
                × ((VpcService.create env "vpc-2" "lab" "10.0.0.0/24" sys).1.queues ≡ sys.queues))))
create_vpc_whole_example = create_vpc_whole env "vpc-2" "lab" "10.0.0.0/24" sys

few : Rows.count_by_vpc "vpc-1" cloud ≤ 243
unfolding Rows.count_by_vpc
few = omega arith

address_within_example :
    (p : Address) × (last : ℕ) × (allocate_ip env cloud net ≡ ok p)
    × (p.ip ≡ dotted 10 0 0 last)
    × (11 ≤ last)
    × (last ≤ 254)
    × (p.ip ≢ p.gateway)
address_within_example = address_within env cloud net 10 0 0 refl few
