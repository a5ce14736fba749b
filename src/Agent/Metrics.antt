-- ===== src/Agent/Metrics.antt =====
-- agent/cmd/main.go and agent/internal/libvirt/manager.go: what the agent says of its node, when it
-- registers and in each heartbeat. A conversion to a type of w bits is computed modulo 2^w; that numbers
-- from 2^(w-1) on stand for negative ones in a signed type is left out.
pub mod Within
use rig_stack.Prelude.{
  ℕ, ◌*◌, ◌/◌, ◌%◌, ◌^◌, String, Bool, true, false, List, length, ltb, truthy, if◌then◌else◌,
}
use rig_stack.Client.Http.{Result, ok, err}
use rig_stack.Controller.Store.Nodes.{Load}
use rig_stack.Agent.Host.{
  Domain, M, ◌>>=◌, pure, attempt, recover, blame, active_domains, memory_and_cpus, free_memory,
}

-- `NodeStats`.
pub record NodeStats : Type 0 where
  pub cpu_cores : ℕ
  pub ram_total : ℕ
  pub ram_free : ℕ
  pub vm_running : ℕ

abbrev pub running_of : Result (List Domain) → ℕ
running_of (ok ds) = length ds
running_of (err m) = 0

-- `GetNodeStats`.
unfoldable pub get_node_stats : M NodeStats
get_node_stats = do
  (mem_kb, cpus) ← blame "node get info" memory_and_cpus
  free ← blame "node free memory" free_memory
  r ← attempt active_domains
  pure (record {
    cpu_cores = cpus % 2 ^ 32;
    ram_total = mem_kb * 1024 % 2 ^ 64;
    ram_free = free % 2 ^ 64;
    vm_running = running_of r;
  })

-- The share of the free memory, which stands for that of the processors.
unfoldable pub ram_free_pct : NodeStats → ℕ
ram_free_pct s = if ltb 0 s.ram_total then s.ram_free * 100 % 2 ^ 64 / s.ram_total % 2 ^ 32 else 0

abbrev pub load_of : NodeStats → Load
load_of s = record {
  cpu_free = ram_free_pct s;
  ram_free = s.ram_free;
  disk_free = 0;
  vm_count = s.vm_running % 2 ^ 32;
}

abbrev pub no_load : Load
no_load = record { cpu_free = 0; ram_free = 0; disk_free = 0; vm_count = 0 }

-- `collectStats`, with or without libvirt.
unfoldable pub collect_stats : Bool → M Load
unfolding get_node_stats ram_free_pct
collect_stats false = pure (record {
  cpu_free = 80;
  ram_free = 4 * 1024 * 1024 * 1024;
  disk_free = 50 * 1024 * 1024 * 1024;
  vm_count = 0;
})
collect_stats true = recover get_node_stats (λ s. pure (load_of s)) (λ m. pure no_load)

-- `getenv`, with the value of the variable, which is empty if it is not set.
unfoldable pub getenv : String → String → String
getenv value fallback = if truthy value then value else fallback

-- `loadConfig`, from the values of the variables and the result of `os.Hostname`.
pub record Config : Type 0 where
  pub controller_addr : String
  pub node_name : String
  pub node_region : String
  pub node_addr : String
  pub libvirt_socket : String

abbrev must_hostname : Result String → String
must_hostname (ok h) = h
must_hostname (err m) = "unknown-node"

unfoldable pub load_config : (String → String) → Result String → Config
unfolding getenv
load_config env hostname = record {
  controller_addr = getenv (env "CONTROLLER_ADDR") "localhost:9090";
  node_name = getenv (env "NODE_NAME") (must_hostname hostname);
  node_region = getenv (env "NODE_REGION") "local-1";
  node_addr = getenv (env "NODE_ADDR") "localhost:9091";
  libvirt_socket = getenv (env "LIBVIRT_SOCKET") "/var/run/libvirt/libvirt-sock";
}

-- `NodeInfo`.
pub record NodeInfo : Type 0 where
  pub name : String
  pub region : String
  pub address : String
  pub cpu_cores : ℕ
  pub ram_bytes : ℕ
  pub disk_bytes : ℕ

abbrev fallback_info : Config → NodeInfo
fallback_info cfg = record {
  name = cfg.node_name;
  region = cfg.node_region;
  address = cfg.node_addr;
  cpu_cores = 4;
  ram_bytes = 8 * 1024 * 1024 * 1024;
  disk_bytes = 100 * 1024 * 1024 * 1024;
}

-- `buildNodeInfo`, with or without libvirt.
unfoldable pub build_node_info : Config → Bool → M NodeInfo
unfolding get_node_stats
build_node_info cfg false = pure (fallback_info cfg)
build_node_info cfg true =
    recover get_node_stats
      (λ s. pure (record (fallback_info cfg) { cpu_cores = s.cpu_cores; ram_bytes = s.ram_total }))
      (λ m. pure (fallback_info cfg))
