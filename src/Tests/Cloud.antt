-- ===== src/Tests/Cloud.antt =====
-- A small cloud: two nodes, a VPC and an instance in it, and what is found in it.
use rig_stack.Prelude.{
  ℕ, String, ◌<>◌, ◌==◌, none, some, [], ◌∷◌, if◌then◌else◌, ◌≡◌, refl, ◌≢◌, true,
}
use rig_stack.Client.Http.{obj, end, ok}
use rig_stack.Controller.Tables.{NodeRow, VpcRow, InstanceRow, Db, v4, Env, no_trouble}
use rig_stack.Controller.Store.Nodes.{Load, insert_by_ram, order_by_ram, get_healthy}
use rig_stack.Controller.Dispatcher.{Command}
use rig_stack.Controller.Instances.{CreateRequest, check_create}
use rig_stack.Controller.Service.{System}
use rig_stack.Controller.Service.Instances.{Place, min_ram, find_place}
use rig_stack.Client.Types.{ApiImage}
use rig_stack.Prelude.Text.{decimal}
use rig_stack.Controller.Store.{find_row}
use rig_stack.Controller.Scheduler.{pick_from, pick_node}
use rig_stack.Controller.Address.{address_of, allocate_ip}
use rig_stack.Controller.Images.{catalog}
use rig_stack.Controller.Service.Images.{find_image}
use rig_stack.Controller.Store.Vpcs as VpcRows
use rig_stack.Controller.Store.Instances as Rows

abbrev pub env : Env
env = record {
  now = 1000;
  parse_cidr = λ t. if t == "10.0.0.0/24" then some (v4 10 0 0 0 24) else none;
  cidr_column = λ t. if t == "10.0.0.0/24" then some t else none;
  inet_text = λ t. t <> "/32";
  bad_cidr = "invalid CIDR address";
  refused = "violates foreign key constraint";
  too_large = "is greater than maximum value for int4";
  trouble = no_trouble;
  no_rows = "no rows in result set";
}

abbrev pub node_of : String → ℕ → ℕ → NodeRow
node_of id ram_free last_seen = record {
  id = id;
  name = id;
  region = "local-1";
  address = id <> ":7000";
  status = "healthy";
  cpu_cores = 8;
  cpu_free_pct = 50;
  ram_bytes = 17179869184;
  ram_free = ram_free;
  disk_bytes = 107374182400;
  disk_free = 53687091200;
  vm_count = 0;
  last_seen = last_seen;
  registered_at = 10;
}

abbrev pub small : NodeRow
small = node_of "node-1" 2147483648 990

abbrev pub large : NodeRow
large = node_of "node-2" 8589934592 995

abbrev pub net : VpcRow
net = record {
  id = "vpc-1";
  name = "main";
  cidr = "10.0.0.0/24";
  status = "active";
  created_at = 20;
}

abbrev pub web : InstanceRow
web = record {
  id = "vm-1";
  name = "web";
  status = "running";
  node_id = "node-1";
  vpc_id = "vpc-1";
  vcpus = 1;
  ram_mb = 512;
  disk_gb = 10;
  ip_address = "10.0.0.11/32";
  os_image = "debian-13";
  password = "secret";
  created_at = 30;
  updated_at = 30;
}

abbrev pub cloud : Db
cloud = record { nodes = small ∷ large ∷ []; vpcs = net ∷ []; instances = web ∷ [] }

abbrev pub reload : Command
reload = record { kind = "reload"; payload = obj end }

abbrev pub sys : System
sys = record { db = cloud; queues = ("node-2", reload ∷ []) ∷ [] }

abbrev pub request : CreateRequest
request = record {
  name = "db";
  vpc_id = "vpc-1";
  vcpus = 2;
  ram_mb = 1024;
  disk_gb = 20;
  os_image = "debian-13";
  ssh_pubkey = "";
}

abbrev pub spot : Place
spot = record {
  vpc = net;
  node = large;
  address = record { ip = "10.0.0.12"; prefix = 24; gateway = "10.0.0.1" };
}

abbrev pub load : Load
load = record { cpu_free = 70; ram_free = 4294967296; disk_free = 1000; vm_count = 1 }

abbrev pub debian : ApiImage
debian = record {
  id = "debian-13";
  name = "Debian 13 (Trixie)";
  os = "Debian";
  version = "13";
  url = "https://cloud.debian.org/images/cloud/trixie/latest/debian-13-genericcloud-amd64.qcow2";
  size_gb = 3;
}

pub found_spot : find_place env request cloud ≡ ok spot
unfolding find_place min_ram check_create VpcRows.get find_row pick_node pick_from get_healthy
    order_by_ram insert_by_ram allocate_ip address_of Rows.count_by_vpc decimal
found_spot = refl

pub request_fits : Rows.fits request.vcpus request.ram_mb request.disk_gb ≡ true
unfolding Rows.fits
request_fits = refl

pub best_of_all : pick_node env 0 cloud ≡ ok large
unfolding pick_node pick_from get_healthy order_by_ram insert_by_ram
best_of_all = refl

pub found_net : VpcRows.get "vpc-1" cloud ≡ some net
unfolding VpcRows.get find_row
found_net = refl

pub found_web : Rows.get "vm-1" cloud ≡ some web
unfolding Rows.get find_row
found_web = refl

pub found_debian : find_image "debian-13" catalog ≡ some debian
unfolding find_image
found_debian = refl

pub some_healthy : get_healthy env cloud ≢ []
unfolding get_healthy order_by_ram insert_by_ram
some_healthy e = cc
