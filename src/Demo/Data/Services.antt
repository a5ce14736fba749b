-- ===== src/Demo/Data/Services.antt =====
-- frontend/src/data/mock.ts: the databases, load balancers and networks of the demo.
use rig_stack.Prelude.{ℕ, String, List, [], ◌∷◌}
use rig_stack.Demo.Types.{Database, LoadBalancer, NetworkVpc, Status}

abbrev database : String → String → String → String → Status → String → ℕ → String → Database
database id name engine version status storage connections host = record {
  id = id;
  name = name;
  engine = engine;
  version = version;
  status = status;
  storage = storage;
  connections = connections;
  host = host;
}

abbrev pub databases : List Database
databases =
    database "1" "postgres-prod" "PostgreSQL" "16.2" "running" "50 GB" 24 "192.168.1.50"
    ∷ database "2" "postgres-staging" "PostgreSQL" "16.2" "running" "20 GB" 5 "192.168.1.51"
    ∷ database "3" "mysql-legacy" "MySQL" "8.0" "running" "30 GB" 8 "192.168.1.52"
    ∷ database "4" "redis-sessions" "Redis" "7.2" "running" "2 GB" 120 "192.168.1.53"
    ∷ database "5" "redis-cache" "Redis" "7.2" "stopped" "1 GB" 0 "192.168.1.54"
    ∷ []

abbrev balancer : String → String → String → Status → ℕ → String → String → LoadBalancer
balancer id name kind status targets ip requests = record {
  id = id;
  name = name;
  kind = kind;
  status = status;
  targets = targets;
  ip = ip;
  requests = requests;
}

abbrev pub load_balancers : List LoadBalancer
load_balancers =
    balancer "1" "lb-web" "HTTPS" "running" 2 "192.168.1.100" "12.4k/min"
    ∷ balancer "2" "lb-api" "HTTP" "running" 3 "192.168.1.101" "3.8k/min"
    ∷ balancer "3" "lb-internal" "TCP" "running" 4 "192.168.1.102" "8.1k/min"
    ∷ []

abbrev vpc : String → String → String → ℕ → ℕ → String → NetworkVpc
vpc id name cidr subnets instances status = record {
  id = id;
  name = name;
  cidr = cidr;
  subnets = subnets;
  instances = instances;
  status = status;
}

abbrev pub vpcs : List NetworkVpc
vpcs =
    vpc "1" "vpc-main" "192.168.0.0/16" 4 8 "active"
    ∷ vpc "2" "vpc-staging" "10.0.0.0/24" 2 2 "active"
    ∷ []
