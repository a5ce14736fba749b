-- ===== src/Demo/Network.antt =====
-- frontend/src/pages/Network.tsx and frontend/src/pages/Kubernetes.tsx: the networks and the clusters
-- of the live demo.
use rig_stack.Prelude.{String, some, none, List, [], ◌∷◌}
use rig_stack.Prelude.Text.{decimal}
use rig_stack.StatusBadge.{badge}
use rig_stack.ViewMode.{Storage, mounted_mode}
use rig_stack.Demo.Types.{NetworkVpc, K8sCluster}
use rig_stack.Demo.Data.Services.{vpcs}
use rig_stack.Demo.Data.Compute.{k8s_clusters}
use rig_stack.Demo.Shown.{Cell, text, status, Card, Body, by_mode}

abbrev pub vpc_headings : List String
vpc_headings = "Nome" ∷ "CIDR" ∷ "Status" ∷ "Subnets" ∷ "Instâncias" ∷ []

unfoldable pub vpc_row : NetworkVpc → List Cell
vpc_row v =
    text v.name
    ∷ text v.cidr
    ∷ status (badge v.status)
    ∷ text (decimal v.subnets)
    ∷ text (decimal v.instances)
    ∷ []

unfoldable pub vpc_card : NetworkVpc → Card
vpc_card v = record {
  heading = v.name;
  line = some v.cidr;
  mark = status (badge v.status);
  items = ("Subnets", decimal v.subnets) ∷ ("Instâncias", decimal v.instances) ∷ [];
  target = none;
}

-- `Network` in a mode, and as it is mounted.
abbrev pub vpc_page : String → Body
vpc_page mode = by_mode mode vpc_headings vpc_row vpc_card vpcs

abbrev pub network : Storage → Body
network storage = vpc_page (mounted_mode "network" "grid" storage)

abbrev pub cluster_headings : List String
cluster_headings = "Nome" ∷ "Status" ∷ "Versão" ∷ "Nodes" ∷ "Pods" ∷ "Região" ∷ "Criado em" ∷ []

unfoldable pub cluster_row : K8sCluster → List Cell
cluster_row c =
    text c.name
    ∷ status (badge c.status)
    ∷ text c.version
    ∷ text (decimal c.nodes)
    ∷ text (decimal c.pods)
    ∷ text c.region
    ∷ text c.created_at
    ∷ []

unfoldable pub cluster_card : K8sCluster → Card
cluster_card c = record {
  heading = c.name;
  line = some c.version;
  mark = status (badge c.status);
  items = ("Nodes", decimal c.nodes) ∷ ("Pods", decimal c.pods) ∷ ("Região", c.region) ∷ [];
  target = none;
}

-- `Kubernetes` in a mode, and as it is mounted.
abbrev pub cluster_page : String → Body
cluster_page mode = by_mode mode cluster_headings cluster_row cluster_card k8s_clusters

abbrev pub kubernetes : Storage → Body
kubernetes storage = cluster_page (mounted_mode "kubernetes" "grid" storage)
