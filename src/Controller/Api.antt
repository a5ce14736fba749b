-- ===== src/Controller/Api.antt =====
-- controller/internal/api/handler/{instance,vpc,node,image}.go: the handlers that change something,
-- from the body and the id of a request to the response and the new system, and the lists of
-- instances and VPCs. `time` is the text of a time in JSON and `bad_json` the error of the decoder.
pub mod Answers
use rig_stack.Prelude.{ℕ, String, ◌==◌, Option, none, some, List, [], ◌∷◌, if◌then◌else◌, true}
use rig_stack.Prelude.Text.{decimal}
use rig_stack.Client.Types.{ApiInstance}
use rig_stack.Client.Http.{
  Result, ok, err, Response, value, unreadable, Json, null, bool, num, str, arr, obj, Fields, field,
  end, Items, nil, item,
}
use rig_stack.Controller.Tables.{VpcRow, InstanceRow, Db, Env}
use rig_stack.Controller.Store.Instances as Rows
use rig_stack.Controller.Instances.{write_error, read_create, same_name, delete_instance}
use rig_stack.Controller.Service.{System}
use rig_stack.Controller.Service.Vpcs as Vpcs
use rig_stack.Controller.Service.Instances as Instances
use rig_stack.Controller.Service.Images as Images

-- `writeJSON`.
abbrev pub write_json : ℕ → Json → Response
write_json status v = record { status = status; json = value v }

-- A response with no body.
abbrev pub no_content : Response
no_content = record { status = 204; json = unreadable "Unexpected end of JSON input" }

-- What a handler makes of the result of the service: `writeError` with a status, or the response.
abbrev pub answer : {A : Type 0} → ℕ → (A → Response) → Result A × System → Response × System
answer status f (ok a, sys) = (f a, sys)
answer status f (err m, sys) = (write_error status m, sys)

unfoldable pub items_of {ℓ} : {A : Type ℓ} → (A → Json) → List A → Items
items_of f [] = nil
items_of f (a ∷ rest) = item (f a) (items_of f rest)

-- `createVPCRequest`.
pub record VpcRequest : Type 0 where
  pub name : String
  pub cidr : String

-- `null` leaves a field alone, and a value of another type is an error.
abbrev set_text : Json → VpcRequest → (String → VpcRequest) → Option VpcRequest
set_text null d set = some d
set_text (str t) d set = some (set t)
set_text v d set = none

read_fields : Fields → VpcRequest → Option VpcRequest
unfolding same_name
read_fields end d = some d
read_fields (field k v fs) d =
    let set =
      if same_name k "name"
      then set_text v d (λ t. record d { name = t })
      else if same_name k "cidr"
      then set_text v d (λ t. record d { cidr = t })
      else some d in
    elim set [ none ↦ none | some d' ↦ read_fields fs d' ]

-- `readJSON` of the body of a creation.
unfoldable pub read_vpc : Json → Option VpcRequest
unfolding read_fields
read_vpc (obj fs) = read_fields fs (record { name = ""; cidr = "" })
read_vpc null = some (record { name = ""; cidr = "" })
read_vpc v = none

module _ (time : ℕ → String) (env : Env) where
  -- `instanceResponse`; `Create` does not set the password.
  abbrev pub instance_response : String → InstanceRow → Json
  instance_response password i = obj (
      field "id" (str i.id) (
        field "name" (str i.name) (
          field "status" (str i.status) (
            field "node_id" (str i.node_id) (
              field "vpc_id" (str i.vpc_id) (
                field "vcpus" (num (decimal i.vcpus)) (
                  field "ram_mb" (num (decimal i.ram_mb)) (
                    field "disk_gb" (num (decimal i.disk_gb)) (
                      field "ip_address" (str i.ip_address) (
                        field "os_image" (str i.os_image) (
                          field "password" (str password) (
                            field "created_at" (str (time i.created_at))
                              (field "updated_at" (str (time i.updated_at)) end)))))))))))))

  -- `InstanceHandler.List`.
  unfoldable pub list_instances : System → Response
  unfolding items_of
  list_instances sys =
      write_json 200
        (arr (items_of (λ (i : InstanceRow). instance_response i.password i) sys.db.instances))

  -- `InstanceHandler.Create`.
  unfoldable pub create_instance : String → String → String → Json → System → Response × System
  create_instance bad_json fresh password body sys = elim (read_create body) [
    | none ↦ (write_error 400 bad_json, sys)
    | some d ↦
        answer 400 (λ i. write_json 201 (instance_response "" i))
          (Instances.create env fresh password d sys)
  ]

  abbrev status_json : String → Response
  status_json status = write_json 200 (obj (field "status" (str status) end))

  -- `InstanceHandler.Start` and `InstanceHandler.Stop`.
  unfoldable pub start_instance : String → System → Response × System
  start_instance id sys = answer 500 (λ u. status_json "starting") (Instances.start env id sys)

  unfoldable pub stop_instance : String → System → Response × System
  stop_instance id sys = answer 500 (λ u. status_json "stopping") (Instances.stop env id sys)

  -- `InstanceHandler.Delete`.
  unfoldable pub remove_instance : String → System → Response × System
  remove_instance id sys = elim (Rows.get id sys.db) [
    | none ↦ (write_error 404 "instance not found", sys)
    | some i ↦
        if i.status == "running"
        then (write_error 409 "stop the instance before deleting", sys)
        else answer 500 (λ u. no_content) (Instances.delete env id sys)
  ]

  abbrev pub vpc_response : VpcRow → Json
  vpc_response v = obj (
      field "id" (str v.id) (
        field "name" (str v.name) (
          field "cidr" (str v.cidr)
            (field "status" (str v.status) (field "created_at" (str (time v.created_at)) end)))))

  -- `VPCHandler.List`.
  unfoldable pub list_vpcs : System → Response
  unfolding items_of
  list_vpcs sys = write_json 200 (arr (items_of vpc_response sys.db.vpcs))

  -- `VPCHandler.Create`.
  unfoldable pub create_vpc : String → String → Json → System → Response × System
  unfolding read_vpc
  create_vpc bad_json fresh body sys = elim (read_vpc body) [
    | none ↦ (write_error 400 bad_json, sys)
    | some d ↦
        answer 400 (λ v. write_json 201 (vpc_response v)) (Vpcs.create env fresh d.name d.cidr sys)
  ]

  -- `VPCHandler.Delete` and `NodeHandler.Delete`.
  unfoldable pub remove_vpc : String → System → Response × System
  remove_vpc id sys = answer 500 (λ u. no_content) (Vpcs.delete env id sys)

  unfoldable pub remove_node : String → System → Response × System
  remove_node id sys = answer 500 (λ u. no_content) (Images.delete_node env id sys)

  -- `ImageHandler.Deploy`.
  unfoldable pub deploy_image : String → System → Response × System
  unfolding items_of
  deploy_image id sys =
      answer 400
        (λ names.
          write_json 200
            (obj (field "nodes" (arr (items_of str names)) (field "queued" (bool true) end))))
        (Images.deploy env id sys)
