-- ===== src/Controller/Store/Nodes.antt =====
-- controller/internal/store/postgres/node.go: the store of nodes.
use rig_stack.Prelude.{
  ℕ, ◌+◌, String, ◌==◌, Bool, ◌&&◌, Option, none, some, List, [], ◌∷◌, keep, any, leb, ltb,
  if◌then◌else◌,
}
use rig_stack.Controller.Tables.{NodeRow, InstanceRow, Db, Env}
use rig_stack.Controller.Store.{find_row, update_rows, delete_rows}

-- `GetByID`.
unfoldable pub get_by_id : String → Db → Option NodeRow
unfolding find_row
get_by_id id db = find_row (λ n. n.id) id db.nodes

-- The row that `Upsert` inserts, and what it changes in the row that has the address.
abbrev pub registered : Env → String → NodeRow → NodeRow
registered env fresh n = record {
  id = fresh;
  name = n.name;
  region = n.region;
  address = n.address;
  status = "healthy";
  cpu_cores = n.cpu_cores;
  cpu_free_pct = 0;
  ram_bytes = n.ram_bytes;
  ram_free = 0;
  disk_bytes = n.disk_bytes;
  disk_free = 0;
  vm_count = 0;
  last_seen = env.now;
  registered_at = env.now;
}

abbrev pub registered_again : Env → NodeRow → NodeRow → NodeRow
registered_again env n old = record old { name = n.name; status = "healthy"; last_seen = env.now }

-- `Upsert`: the id, and the tables.
unfoldable pub upsert : Env → String → NodeRow → Db → String × Db
unfolding find_row
upsert env fresh n db = elim (find_row (λ m. m.address) n.address db.nodes) [
  | some old ↦ (
    old.id,
    record db { nodes = update_rows (λ m. m.address) n.address (registered_again env n) db.nodes },
  )
  | none ↦ (fresh, record db { nodes = registered env fresh n ∷ db.nodes })
]

-- What a heartbeat reports.
pub record Load : Type 0 where
  pub cpu_free : ℕ
  pub ram_free : ℕ
  pub disk_free : ℕ
  pub vm_count : ℕ

abbrev pub beaten : Env → Load → NodeRow → NodeRow
beaten env l n = record n {
  cpu_free_pct = l.cpu_free;
  ram_free = l.ram_free;
  disk_free = l.disk_free;
  vm_count = l.vm_count;
  last_seen = env.now;
  status = "healthy";
}

-- `UpdateHeartbeat`.
unfoldable pub update_heartbeat : Env → String → Load → Db → Db
update_heartbeat env id l db = record db {
  nodes = update_rows (λ n. n.id) id (beaten env l) db.nodes;
}

-- `MarkUnreachable`.
unfoldable pub mark_unreachable : String → Db → Db
mark_unreachable id db = record db {
  nodes = update_rows (λ n. n.id) id (λ n. record n { status = "unreachable" }) db.nodes;
}

-- `Delete`, which fails for a node that an instance refers to.
unfoldable pub delete : String → Db → Option Db
delete id db =
    if any (λ (i : InstanceRow). i.node_id == id) db.instances
    then none
    else some (record db { nodes = delete_rows (λ n. n.id) id db.nodes })

-- A node of which `GetHealthy` has a row: it was seen in the last 30 s.
abbrev pub is_healthy : Env → NodeRow → Bool
is_healthy env n = n.status == "healthy" && ltb env.now (n.last_seen + 30)

unfoldable pub insert_by_ram : NodeRow → List NodeRow → List NodeRow
insert_by_ram n [] = n ∷ []
insert_by_ram n (m ∷ ms) = if leb m.ram_free n.ram_free then n ∷ m ∷ ms else m ∷ insert_by_ram n ms

-- ORDER BY ram_free DESC; of nodes with the same memory PostgreSQL may choose any order.
unfoldable pub order_by_ram : List NodeRow → List NodeRow
unfolding insert_by_ram
order_by_ram [] = []
order_by_ram (n ∷ ns) = insert_by_ram n (order_by_ram ns)

-- `GetHealthy`.
unfoldable pub get_healthy : Env → Db → List NodeRow
unfolding order_by_ram
get_healthy env db = order_by_ram (keep (is_healthy env) db.nodes)
