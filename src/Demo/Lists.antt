-- ===== src/Demo/Lists.antt =====
-- frontend/src/pages/{Containers,Databases,LoadBalancer,IAM}.tsx: the pages of the live demo that are
-- one table.
use rig_stack.Prelude.{String, ◌<>◌, ◌==◌, List, [], ◌∷◌, map, if◌then◌else◌}
use rig_stack.Prelude.Text.{decimal, take_chars}
use rig_stack.StatusBadge.{badge}
use rig_stack.Demo.Types.{Container, Database, LoadBalancer, IamUser}
use rig_stack.Demo.Data.Compute as Compute
use rig_stack.Demo.Data.Services as Services
use rig_stack.Demo.Data.People.{iam_users}
use rig_stack.Demo.Shown.{Cell, text, status, label, Body, table}

unfoldable pub container_row : Container → List Cell
container_row c =
    text c.name
    ∷ text c.image
    ∷ status (badge c.status)
    ∷ text c.ports
    ∷ text c.cpu
    ∷ text c.memory
    ∷ text c.uptime
    ∷ []

-- `Containers`.
abbrev pub containers : Body
containers =
    table ("Nome" ∷ "Imagem" ∷ "Status" ∷ "Portas" ∷ "CPU" ∷ "Memória" ∷ "Uptime" ∷ [])
      (map container_row Compute.containers)

-- A colour under its key, and the text that a template literal makes of one that is not there.
unfoldable pub colour_of : String → List (String × String) → String
colour_of key [] = "undefined"
colour_of key ((k, colour) ∷ rest) = if k == key then colour else colour_of key rest

abbrev pub engine_colors : List (String × String)
engine_colors =
    ("PostgreSQL", "text-blue-700 bg-blue-50")
    ∷ ("MySQL", "text-orange-700 bg-orange-50")
    ∷ ("Redis", "text-red-700 bg-red-50")
    ∷ []

unfoldable pub database_row : Database → List Cell
unfolding colour_of
database_row d =
    text d.name
    ∷ label (d.engine <> " " <> d.version) (colour_of d.engine engine_colors)
    ∷ status (badge d.status)
    ∷ text d.storage
    ∷ text (decimal d.connections)
    ∷ text d.host
    ∷ []

-- `Databases`.
abbrev pub databases : Body
databases =
    table ("Nome" ∷ "Engine" ∷ "Status" ∷ "Storage" ∷ "Conexões" ∷ "Host" ∷ [])
      (map database_row Services.databases)

unfoldable pub load_balancer_row : LoadBalancer → List Cell
load_balancer_row lb =
    text lb.name
    ∷ label lb.kind "bg-slate-100 text-slate-600"
    ∷ status (badge lb.status)
    ∷ text (decimal lb.targets)
    ∷ text lb.ip
    ∷ text lb.requests
    ∷ []

-- `LoadBalancer`.
abbrev pub load_balancers : Body
load_balancers =
    table ("Nome" ∷ "Tipo" ∷ "Status" ∷ "Targets" ∷ "IP" ∷ "Requisições" ∷ [])
      (map load_balancer_row Services.load_balancers)

abbrev pub role_colors : List (String × String)
role_colors =
    ("admin", "text-purple-700 bg-purple-50")
    ∷ ("developer", "text-blue-700 bg-blue-50")
    ∷ ("viewer", "text-slate-600 bg-slate-100")
    ∷ []

-- The first cell holds the initial, the name and the address.
pub record UserRow : Type 0 where
  pub initial : String
  pub name : String
  pub email : String
  pub role : Cell
  pub active : Cell
  pub last_access : String

unfoldable pub user_row : IamUser → UserRow
unfolding colour_of take_chars
user_row u = record {
  initial = take_chars 1 u.name;
  name = u.name;
  email = u.email;
  role = label u.role (colour_of u.role role_colors);
  active =
      if u.status == "active"
      then label "Ativo" "text-emerald-600"
      else label "Inativo" "text-slate-400";
  last_access = u.last_access;
}

-- `IAM`.
abbrev pub iam : List UserRow
iam = map user_row iam_users
