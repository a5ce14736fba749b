-- ===== src/Controller/Store/Vpcs.antt =====
-- controller/internal/store/postgres/vpc.go: the store of VPCs.
use rig_stack.Prelude.{String, ◌==◌, Option, none, some, ◌∷◌, any, if◌then◌else◌}
use rig_stack.Controller.Tables.{VpcRow, InstanceRow, Db, Env}
use rig_stack.Controller.Store.{find_row, delete_rows}

-- `Get`.
unfoldable pub get : String → Db → Option VpcRow
unfolding find_row
get id db = find_row (λ v. v.id) id db.vpcs

-- `Create`, which fails for a range that the column does not take.
unfoldable pub create : Env → String → String → String → Db → Option Db
create env fresh name cidr db = elim (env.cidr_column cidr) [
  | none ↦ none
  | some kept ↦ some (record db {
    vpcs =
        record { id = fresh; name = name; cidr = kept; status = "active"; created_at = env.now }
        ∷ db.vpcs;
  })
]

-- `Delete`, which fails for a VPC that an instance refers to.
unfoldable pub delete : String → Db → Option Db
delete id db =
    if any (λ (i : InstanceRow). i.vpc_id == id) db.instances
    then none
    else some (record db { vpcs = delete_rows (λ v. v.id) id db.vpcs })
