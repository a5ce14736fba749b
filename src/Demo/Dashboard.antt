-- ===== src/Demo/Dashboard.antt =====
-- frontend/src/pages/Dashboard.tsx: the dashboard of the live demo. `grouped` is `toLocaleString` of
-- a number.
use rig_stack.Prelude.{ℕ, String, ◌<>◌, ◌==◌, List, [], ◌∷◌, map, keep, length, tally}
use rig_stack.Prelude.Text.{decimal}
use rig_stack.Demo.Types.{Instance, Container, K8sCluster, Bucket, Database, Activity}
use rig_stack.Demo.Data.Compute as Compute
use rig_stack.Demo.Data.Buckets as Buckets
use rig_stack.Demo.Data.Services as Services
use rig_stack.Demo.Data.People as People

pub record Stat : Type 0 where
  pub label : String
  pub value : ℕ
  pub sub : String
  pub total : String

-- `items.filter(i => i.status === status).length`.
abbrev pub with_status : {A : Type 0} → (A → String) → String → List A → ℕ
with_status status_of status xs = length (keep (λ x. status_of x == status) xs)

abbrev pub stat : String → ℕ → String → String → Stat
stat label value sub total = record { label = label; value = value; sub = sub; total = total }

-- A card that counts what is running and what is stopped.
abbrev pub running_stat : {A : Type 0} → String → (A → String) → List A → Stat
running_stat label status_of xs =
    stat label (with_status status_of "running" xs)
      (decimal (with_status status_of "stopped" xs) <> " stopped") (decimal (length xs))

abbrev pub stats : (ℕ → String) → List Stat
stats grouped =
    running_stat "Instances" (λ (i : Instance). i.status) Compute.instances
    ∷ running_stat "Containers" (λ (c : Container). c.status) Compute.containers
    ∷ stat "Kubernetes" (length Compute.k8s_clusters)
        (decimal (tally (λ (c : K8sCluster). c.nodes) Compute.k8s_clusters) <> " nodes")
        (decimal (tally (λ (c : K8sCluster). c.pods) Compute.k8s_clusters) <> " pods")
    ∷ stat "Object Storage" (length Buckets.buckets) "128 GB usado"
        (grouped (tally (λ (b : Bucket). b.objects) Buckets.buckets) <> " objetos")
    ∷ running_stat "Databases" (λ (d : Database). d.status) Services.databases
    ∷ stat "Load Balancers" (length Services.load_balancers) "99.9% uptime" "todos ativos"
    ∷ []

pub record Bar : Type 0 where
  pub label : String
  pub value : ℕ

abbrev pub bar : String → ℕ → Bar
bar label value = record { label = label; value = value }

abbrev pub resource_bars : List Bar
resource_bars =
    bar "CPU" People.resource_usage.cpu
    ∷ bar "RAM" People.resource_usage.ram
    ∷ bar "Storage" People.resource_usage.storage
    ∷ bar "Network" People.resource_usage.network
    ∷ []

-- An activity, with its type, which chooses the icon.
abbrev pub activity_row : Activity → String × String × String
activity_row a = (a.kind, a.message, a.time)

pub record Shown : Type 0 where
  pub stats : List Stat
  pub bars : List (String × String)
  pub activity : List (String × String × String)

-- `Dashboard`.
unfoldable pub dashboard : (ℕ → String) → Shown
dashboard grouped = record {
  stats = stats grouped;
  bars = map (λ (r : Bar). (r.label, decimal r.value <> "%")) resource_bars;
  activity = map activity_row People.recent_activity;
}
