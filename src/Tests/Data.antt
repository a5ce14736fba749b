-- ===== src/Tests/Data.antt =====
-- Answers of the controller that the tests share.
use rig_stack.Prelude.{String}
use rig_stack.Client.Types.{ApiInstance, ApiNode}

abbrev pub instance_of : String → String → ApiInstance
instance_of id status = record {
  id = id;
  name = id;
  status = status;
  node_id = "node-1";
  vpc_id = "vpc-1";
  vcpus = 2;
  ram_mb = 2048;
  disk_gb = 20;
  ip_address = "10.0.1.2";
  os_image = "debian-13";
  password = "";
  created_at = "2026-01-01T00:00:00Z";
  updated_at = "2026-01-01T00:00:00Z";
}

abbrev pub web : ApiInstance
web = instance_of "web" "running"

abbrev pub db : ApiInstance
db = instance_of "db" "stopped"

abbrev pub node_of : String → String → ApiNode
node_of name status = record {
  id = name;
  name = name;
  region = "local-1";
  address = "192.168.0.2";
  status = status;
  cpu_cores = 8;
  cpu_free_pct = "0.5";
  ram_bytes = 17179869184;
  ram_free = 8589934592;
  disk_bytes = 107374182400;
  disk_free = 53687091200;
  vm_count = 2;
  last_seen = "2026-01-01T00:00:00Z";
  registered_at = "2026-01-01T00:00:00Z";
}
