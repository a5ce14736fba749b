-- ===== src/Client/Endpoints.antt =====
-- frontend/src/api/client.ts: the requests that the functions of `api` make.
use rig_stack.Prelude.{ℕ, String, ◌<>◌, Option, none, some, [], ◌∷◌}
use rig_stack.Prelude.Text.{decimal}
use rig_stack.Client.Http.{
  Json, num, str, obj, Fields, end, field, Method, get, post, put, delete, Request,
}

-- The argument of `instances.create`.
pub record CreateData : Type 0 where
  pub name : String
  pub vpc_id : String
  pub vcpus : ℕ
  pub ram_mb : ℕ
  pub disk_gb : ℕ
  pub os_image : String
  pub ssh_pubkey : Option String

-- The call of `fetch` in `req`: the header, and the method and the body of `init`.
abbrev pub call : Method → String → Option Json → Request
call method path body = record {
  method = method;
  path = path;
  headers = ("Content-Type", "application/json") ∷ [];
  body = body;
}

-- An optional property is left out of the text if it is `undefined`.
abbrev optional : String → Option String → Fields → Fields
optional key none rest = rest
optional key (some t) rest = field key (str t) rest

unfoldable pub create_json : CreateData → Json
create_json d = obj (
    field "name" (str d.name) (
      field "vpc_id" (str d.vpc_id) (
        field "vcpus" (num (decimal d.vcpus)) (
          field "ram_mb" (num (decimal d.ram_mb)) (
            field "disk_gb" (num (decimal d.disk_gb))
              (field "os_image" (str d.os_image) (optional "ssh_pubkey" d.ssh_pubkey end)))))))

unfoldable pub nodes_list : Request
nodes_list = call get "/api/v1/nodes" none

unfoldable pub nodes_delete : String → Request
nodes_delete id = call delete ("/api/v1/nodes/" <> id) none

unfoldable pub vpcs_list : Request
vpcs_list = call get "/api/v1/vpcs" none

unfoldable pub vpcs_create : String → String → Request
vpcs_create name cidr =
    call post "/api/v1/vpcs" (some (obj (field "name" (str name) (field "cidr" (str cidr) end))))

unfoldable pub vpcs_delete : String → Request
vpcs_delete id = call delete ("/api/v1/vpcs/" <> id) none

unfoldable pub images_list : Request
images_list = call get "/api/v1/images" none

unfoldable pub images_deploy : String → Request
images_deploy id = call post ("/api/v1/images/" <> id <> "/deploy") none

unfoldable pub instances_list : Request
instances_list = call get "/api/v1/instances" none

unfoldable pub instances_create : CreateData → Request
unfolding create_json
instances_create d = call post "/api/v1/instances" (some (create_json d))

unfoldable pub instances_start : String → Request
instances_start id = call put ("/api/v1/instances/" <> id <> "/start") none

unfoldable pub instances_stop : String → Request
instances_stop id = call put ("/api/v1/instances/" <> id <> "/stop") none

unfoldable pub instances_delete : String → Request
instances_delete id = call delete ("/api/v1/instances/" <> id) none

unfoldable pub instances_metrics : String → Request
instances_metrics id = call get ("/api/v1/instances/" <> id <> "/metrics") none
