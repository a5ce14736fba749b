-- ===== src/Controller/Service/Instances.antt =====
-- controller/internal/service/instance.go: the service of instances. `fresh` is the id that the
-- database gives to a new row and `password` what `generatePassword` draws.
pub mod Found
pub mod Placement
pub mod Addresses
use rig_stack.Prelude.{
  ℕ, ◌+◌, ◌*◌, ◌%◌, ◌^◌, String, ◌<>◌, Bool, false, Option, none, some, ltb, if◌then◌else◌,
}
use rig_stack.Prelude.Text.{decimal}
use rig_stack.Client.Http.{Result, ok, err, Json, bool, num, str, obj, field, end}
use rig_stack.Controller.Tables.{
  NodeRow, VpcRow, InstanceRow, Db, Env, Trouble, at_insert, at_update, at_read,
}
use rig_stack.Controller.Store.Vpcs
use rig_stack.Controller.Store.Instances
use rig_stack.Controller.Dispatcher.{Command, Queues, enqueue}
use rig_stack.Controller.Scheduler.{pick_node}
use rig_stack.Controller.Address.{Address, allocate_ip, bridge_name}
use rig_stack.Controller.Instances.{CreateRequest, check_create}
use rig_stack.Controller.Service.{System}

-- `int64(req.RAMMB)*1024*1024`, where the negative numbers, which ask for no more of a node than 0
-- does, are 0.
unfoldable pub min_ram : ℕ → ℕ
min_ram ram_mb =
    let bytes = ram_mb * 1024 * 1024 % 2 ^ 64 in if ltb bytes (2 ^ 63) then bytes else 0

-- What `Create` finds before it writes: the VPC, the node and the address, or the error.
pub record Place : Type 0 where
  pub vpc : VpcRow
  pub node : NodeRow
  pub address : Address

unfoldable pub find_place : Env → CreateRequest → Db → Result Place
unfolding min_ram
find_place env req db = elim (check_create req) [
  | some m ↦ err m
  | none ↦ elim (Vpcs.get req.vpc_id db) [
    | none ↦ err ("vpc not found: vpc " <> req.vpc_id <> ": " <> env.no_rows)
    | some vpc ↦ elim (pick_node env (min_ram req.ram_mb) db) [
      | err m ↦ err ("pick node: " <> m)
      | ok node ↦ elim (allocate_ip env db vpc) [
        | err m ↦ err ("allocate ip: " <> m)
        | ok address ↦ ok (record { vpc = vpc; node = node; address = address })
      ]
    ]
  ]
]

-- The row that `Create` inserts.
abbrev pub new_row : Env → String → String → CreateRequest → Place → InstanceRow
new_row env fresh password req p = record {
  id = fresh;
  name = req.name;
  status = "pending";
  node_id = p.node.id;
  vpc_id = req.vpc_id;
  vcpus = req.vcpus;
  ram_mb = req.ram_mb;
  disk_gb = req.disk_gb;
  ip_address = "";
  os_image = req.os_image;
  password = password;
  created_at = env.now;
  updated_at = env.now;
}

abbrev pub create_vm : String → String → CreateRequest → Place → Command
create_vm fresh password req p = record {
  kind = "create_vm";
  payload = obj (
      field "bridge_name" (str (bridge_name req.vpc_id)) (
        field "disk_gb" (num (decimal req.disk_gb)) (
          field "gateway" (str p.address.gateway) (
            field "ip_address" (str p.address.ip) (
              field "name" (str req.name) (
                field "os_image" (str req.os_image) (
                  field "password" (str password) (
                    field "prefix" (num (decimal p.address.prefix)) (
                      field "ram_mb" (num (decimal req.ram_mb)) (
                        field "ssh_pubkey" (str req.ssh_pubkey) (
                          field "vcpus" (num (decimal req.vcpus)) (
                            field "vm_id" (str fresh) (
                              field "vpc_cidr" (str p.vpc.cidr)
                                (field "vpc_id" (str req.vpc_id) end))))))))))))));
}

abbrev pub get_instance : Env → String → Db → Result InstanceRow
get_instance env id db = elim (Instances.get id db) [
  | some i ↦ ok i
  | none ↦ err ("instance " <> id <> ": " <> env.no_rows)
]

abbrev pub insert_fails : Trouble → Option String
insert_fails (at_insert m) = some m
insert_fails _ = none

abbrev pub update_fails : Trouble → Option String
update_fails (at_update m) = some m
update_fails _ = none

abbrev pub read_fails : Trouble → Option String
read_fails (at_read m) = some m
read_fails _ = none

-- The statement that inserts the row: a number that is too large fails before a key that is not there.
unfoldable pub insert : Env → InstanceRow → Db → Result Db
insert env i db = elim (insert_fails env.trouble) [
  | some m ↦ err m
  | none ↦ elim (Instances.create i db) [
    | some new ↦ ok new
    | none ↦ err (if Instances.fits i.vcpus i.ram_mb i.disk_gb then env.refused else env.too_large)
  ]
]

-- The last statement of `Create`.
abbrev pub read_created : Env → String → Db → Result InstanceRow
read_created env id db = elim (read_fails env.trouble) [
  | some m ↦ err ("instance " <> id <> ": " <> m)
  | none ↦ get_instance env id db
]

-- The rest of `Create`, from the first write on.
unfoldable pub place :
    Env → String → String → CreateRequest → Place → System → Result InstanceRow × System
unfolding insert
place env fresh password req p sys = elim (insert env (new_row env fresh password req p) sys.db) [
  | err m ↦ (err ("create instance: " <> m), sys)
  | ok created ↦ elim (update_fails env.trouble) [
    | some m ↦ (err ("update instance ip: " <> m), record sys { db = created })
    | none ↦
        let db = Instances.update_status env fresh "pending" p.address.ip created in
        (
          read_created env fresh db,
          record {
            db = db;
            queues = enqueue p.node.id (create_vm fresh password req p) sys.queues;
          },
        )
  ]
]

-- `Create`.
unfoldable pub create : Env → String → String → CreateRequest → System → Result InstanceRow × System
unfolding find_place place
create env fresh password req sys = elim (find_place env req sys.db) [
  | err m ↦ (err m, sys)
  | ok p ↦ place env fresh password req p sys
]

abbrev not_found : Env → String → String
not_found env id = "instance not found: instance " <> id <> ": " <> env.no_rows

-- The commands of `Start`, `Stop` and `Delete`.
abbrev pub start_vm : String → InstanceRow → VpcRow → Command
start_vm id i vpc = record {
  kind = "start_vm";
  payload = obj (
      field "force" (bool false) (
        field "name" (str i.name) (
          field "vm_id" (str id)
            (field "vpc_cidr" (str vpc.cidr) (field "vpc_id" (str i.vpc_id) end)))));
}

abbrev pub stop_vm : String → InstanceRow → Command
stop_vm id i = record {
  kind = "stop_vm";
  payload =
      obj (field "force" (bool false) (field "name" (str i.name) (field "vm_id" (str id) end)));
}

abbrev pub delete_vm : String → InstanceRow → Command
delete_vm id i = record {
  kind = "delete_vm";
  payload = obj (field "name" (str i.name) (field "vm_id" (str id) end));
}

-- `Start`.
unfoldable pub start : Env → String → System → Result (Unit {0}) × System
start env id sys = elim (Instances.get id sys.db) [
  | none ↦ (err (not_found env id), sys)
  | some i ↦ elim (Vpcs.get i.vpc_id sys.db) [
    | none ↦ (err ("vpc not found: vpc " <> i.vpc_id <> ": " <> env.no_rows), sys)
    | some vpc ↦ (
      ok tt,
      record {
        db = Instances.update_status env id "starting" "" sys.db;
        queues = enqueue i.node_id (start_vm id i vpc) sys.queues;
      },
    )
  ]
]

-- `Stop`.
unfoldable pub stop : Env → String → System → Result (Unit {0}) × System
stop env id sys = elim (Instances.get id sys.db) [
  | none ↦ (err (not_found env id), sys)
  | some i ↦ (
    ok tt,
    record {
      db = Instances.update_status env id "stopping" "" sys.db;
      queues = enqueue i.node_id (stop_vm id i) sys.queues;
    },
  )
]

-- `Delete`.
unfoldable pub delete : Env → String → System → Result (Unit {0}) × System
delete env id sys = elim (Instances.get id sys.db) [
  | none ↦ (err (not_found env id), sys)
  | some i ↦ (
    ok tt,
    record {
      db = Instances.delete id (Instances.update_status env id "terminating" "" sys.db);
      queues = enqueue i.node_id (delete_vm id i) sys.queues;
    },
  )
]
