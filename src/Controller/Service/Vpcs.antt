-- ===== src/Controller/Service/Vpcs.antt =====
-- controller/internal/service/vpc.go: the service of VPCs. A payload has its keys in the order of
-- the alphabet, as `json.Marshal` writes a map.
pub mod Removal
pub mod Creation
use rig_stack.Prelude.{ℕ, String, ◌<>◌, Option, none, some}
use rig_stack.Client.Http.{Result, ok, err, Json, str, obj, field, end}
use rig_stack.Controller.Tables.{VpcRow, Db, Env}
use rig_stack.Controller.Store.Vpcs
use rig_stack.Controller.Dispatcher.{Command, Queues, enqueue}
use rig_stack.Controller.Scheduler.{pick_node}
use rig_stack.Controller.Service.{System}

abbrev pub payload : String → String → Json
payload vpc_id cidr = obj (field "cidr" (str cidr) (field "vpc_id" (str vpc_id) end))

-- The command for the node that `PickNode(ctx, 0)` chooses, if it chooses one.
unfoldable pub notify : Env → Command → Db → Queues → Queues
notify env cmd db queues = elim (pick_node env 0 db) [
  | ok node ↦ enqueue node.id cmd queues
  | err m ↦ queues
]

-- `Get` of the store, with the error that it gives for a row that is not there.
abbrev pub get_vpc : Env → String → Db → Result VpcRow
get_vpc env id db = elim (Vpcs.get id db) [
  | some v ↦ ok v
  | none ↦ err ("vpc " <> id <> ": " <> env.no_rows)
]

-- `Create`. The text of `%q` is that of a range without quotes.
unfoldable pub create : Env → String → String → String → System → Result VpcRow × System
unfolding notify
create env fresh name cidr sys = elim (env.parse_cidr cidr) [
  | none ↦ (err ("invalid CIDR \"" <> cidr <> "\": " <> env.bad_cidr), sys)
  | some net ↦ elim (Vpcs.create env fresh name cidr sys.db) [
    | none ↦ (err ("create vpc: " <> env.refused), sys)
    | some db ↦ (
      get_vpc env fresh db,
      record {
        db = db;
        queues =
            notify env (record { kind = "create_vpc"; payload = payload fresh cidr }) db sys.queues;
      },
    )
  ]
]

-- `Delete`.
unfoldable pub delete : Env → String → System → Result (Unit {0}) × System
unfolding notify
delete env id sys = elim (Vpcs.get id sys.db) [
  | none ↦ (err ("vpc not found: vpc " <> id <> ": " <> env.no_rows), sys)
  | some vpc ↦
      let queues =
        notify env (record { kind = "delete_vpc"; payload = payload id vpc.cidr }) sys.db
          sys.queues in
      elim (Vpcs.delete id sys.db) [
        | none ↦ (err env.refused, record sys { queues = queues })
        | some db ↦ (ok tt, record { db = db; queues = queues })
      ]
]
