-- ===== src/Demo/Data/Compute.antt =====
-- frontend/src/data/mock.ts: the instances, containers and clusters of the demo.
use rig_stack.Prelude.{ℕ, String, List, [], ◌∷◌}
use rig_stack.Demo.Types.{Instance, Container, K8sCluster, Status}

abbrev instance_of :
    String → String → Status → ℕ → String → String → String → String → String → Instance
instance_of id name status vcpus ram disk ip os created_at = record {
  id = id;
  name = name;
  status = status;
  vcpus = vcpus;
  ram = ram;
  disk = disk;
  ip = ip;
  os = os;
  created_at = created_at;
}

abbrev pub instances : List Instance
instances =
    instance_of "1" "web-01" "running" 2 "4 GB" "40 GB" "192.168.1.10" "Ubuntu 24.04" "2026-04-10"
    ∷ instance_of "2" "web-02" "running" 2 "4 GB" "40 GB" "192.168.1.11" "Ubuntu 24.04" "2026-04-10"
    ∷ instance_of "3" "db-primary" "running" 4 "8 GB" "100 GB" "192.168.1.20" "Debian 12"
        "2026-03-15"
    ∷ instance_of "4" "worker-01" "running" 2 "2 GB" "20 GB" "192.168.1.30" "Rocky Linux 9"
        "2026-04-20"
    ∷ instance_of "5" "staging-01" "stopped" 2 "4 GB" "40 GB" "—" "Ubuntu 24.04" "2026-05-01"
    ∷ instance_of "6" "test-env" "stopped" 1 "1 GB" "10 GB" "—" "Debian 12" "2026-05-10"
    ∷ []

abbrev container : String → String → String → Status → String → String → String → String → Container
container id name image status ports cpu memory uptime = record {
  id = id;
  name = name;
  image = image;
  status = status;
  ports = ports;
  cpu = cpu;
  memory = memory;
  uptime = uptime;
}

abbrev pub containers : List Container
containers =
    container "1" "nginx-proxy" "nginx:1.25" "running" "80, 443" "0.2%" "32 MB" "15d"
    ∷ container "2" "app-api" "myapp/api:v2.1" "running" "8000" "1.4%" "128 MB" "15d"
    ∷ container "3" "app-worker" "myapp/worker:v2.1" "running" "—" "0.8%" "96 MB" "15d"
    ∷ container "4" "redis-cache" "redis:7.2" "running" "6379" "0.1%" "16 MB" "30d"
    ∷ container "5" "postgres-dev" "postgres:16" "running" "5432" "0.3%" "64 MB" "7d"
    ∷ container "6" "mailhog" "mailhog/mailhog" "stopped" "1025, 8025" "—" "—" "—"
    ∷ []

abbrev cluster : String → String → Status → String → ℕ → ℕ → String → String → K8sCluster
cluster id name status version nodes pods region created_at = record {
  id = id;
  name = name;
  status = status;
  version = version;
  nodes = nodes;
  pods = pods;
  region = region;
  created_at = created_at;
}

abbrev pub k8s_clusters : List K8sCluster
k8s_clusters =
    cluster "1" "prod-cluster" "running" "v1.29.2" 5 42 "local-1" "2026-02-10"
    ∷ cluster "2" "staging-cluster" "running" "v1.29.2" 3 18 "local-1" "2026-03-05"
    ∷ []
