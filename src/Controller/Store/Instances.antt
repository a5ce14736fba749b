-- ===== src/Controller/Store/Instances.antt =====
-- controller/internal/store/postgres/instance.go: the store of instances, and the statement on
-- instances of the store of nodes.
use rig_stack.Prelude.{
  ℕ, String, ◌==◌, Bool, ◌&&◌, ◌||◌, not, Option, none, some, ◌∷◌, keep, is_some, length, truthy,
  leb, if◌then◌else◌,
}
use rig_stack.Controller.Tables.{InstanceRow, Db, Env}
use rig_stack.Controller.Store.{find_row, update_rows, delete_rows}

-- `Get`.
unfoldable pub get : String → Db → Option InstanceRow
unfolding find_row
get id db = find_row (λ i. i.id) id db.instances

-- The node and the VPC of a row, where it has them, are there.
unfoldable pub refers : InstanceRow → Db → Bool
unfolding find_row
refers i db =
    (not (truthy i.node_id) || is_some (find_row (λ n. n.id) i.node_id db.nodes))
    && (not (truthy i.vpc_id) || is_some (find_row (λ v. v.id) i.vpc_id db.vpcs))

-- The columns of type INT hold the three numbers.
unfoldable pub fits : ℕ → ℕ → ℕ → Bool
fits vcpus ram_mb disk_gb = leb vcpus 2147483647 && leb ram_mb 2147483647 && leb disk_gb 2147483647

-- `Create`, with the row that the statement inserts.
unfoldable pub create : InstanceRow → Db → Option Db
unfolding fits refers
create i db =
    if fits i.vcpus i.ram_mb i.disk_gb && refers i db
    then some (record db { instances = i ∷ db.instances })
    else none

-- What an address that is written to the column is read as.
abbrev pub ip_column : Env → String → String
ip_column env ip = if truthy ip then env.inet_text ip else ""

-- `UpdateStatus`: the address becomes NULL where `ip` is empty.
unfoldable pub update_status : Env → String → String → String → Db → Db
update_status env id status ip db = record db {
  instances =
      update_rows (λ i. i.id) id
        (λ i. record i { status = status; ip_address = ip_column env ip; updated_at = env.now })
        db.instances;
}

-- `UpdateVMStatus` of the store of nodes: an empty `ip` leaves the address as it is.
unfoldable pub update_vm_status : Env → String → String → String → Db → Db
update_vm_status env id status ip db = record db {
  instances =
      update_rows (λ i. i.id) id
        (λ i. record i {
          status = status;
          ip_address = if truthy ip then env.inet_text ip else i.ip_address;
          updated_at = env.now;
        })
        db.instances;
}

-- `Delete`.
unfoldable pub delete : String → Db → Db
delete id db = record db { instances = delete_rows (λ i. i.id) id db.instances }

-- `CountByVPC`.
unfoldable pub count_by_vpc : String → Db → ℕ
count_by_vpc id db = length (keep (λ (i : InstanceRow). i.vpc_id == id) db.instances)
