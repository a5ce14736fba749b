-- ===== src/Controller/Instances.antt =====
-- controller/internal/api/handler/instance.go and service/instance.go: how the body of a creation
-- is read, and the checks that it must pass.
use Prim.Native.Char.{code}
use rig_stack.Prelude.{
  ℕ, ◌+◌, ◌-◌, ◌*◌, String, ◌==◌, Bool, true, false, eqb, Option, none, some, if◌then◌else◌, ltb,
  leb, ◌&&◌,
}
use rig_stack.Client.Http.{
  Json, null, num, str, obj, Fields, end, field, Response, value, unreadable,
}
use rig_stack.Client.Types.{ApiInstance}

-- `createInstanceRequest`, which the handler copies field by field into the service's request.
pub record CreateRequest : Type 0 where
  pub name : String
  pub vpc_id : String
  pub vcpus : ℕ
  pub ram_mb : ℕ
  pub disk_gb : ℕ
  pub os_image : String
  pub ssh_pubkey : String

-- The zero value, into which the body is read.
abbrev zero_request : CreateRequest
zero_request = record {
  name = "";
  vpc_id = "";
  vcpus = 0;
  ram_mb = 0;
  disk_gb = 0;
  os_image = "";
  ssh_pubkey = "";
}

-- How `encoding/json` finds the field of a key: up to the case of letters, where U+017F is an `s` and
-- U+212A a `k`. The name of the field is in lower case.
abbrev pub fold_code : ℕ → ℕ
fold_code n =
    if leb 65 n && leb n 90
    then n + 32
    else if eqb n 383
    then 115
    else if eqb n 8490
    then 107
    else n

unfoldable pub same_name : String → String → Bool
same_name String.[] String.[] = true
same_name (String.◌∷◌ c s) (String.◌∷◌ d t) = eqb (fold_code (code c)) (code d) && same_name s t
same_name _ _ = false

-- The numbers below this one go into an `int`.
abbrev pub int_limit : ℕ
int_limit = 9223372036854775808

-- A number that goes into an `int`: its decimal digits. A sign, which the decoder accepts and which no
-- request of the dashboard has, is not read here, so that of the bodies with a negative number
-- nothing is said.
unfoldable pub digits_from : ℕ → String → Option ℕ
digits_from acc String.[] = some acc
digits_from acc (String.◌∷◌ c s) =
    let rest = digits_from (10 * acc + (code c - 48)) s in
    if leb 48 (code c) && leb (code c) 57 then rest else none

-- `null` leaves a field alone, and a value of another type is an error.
abbrev text_field : Json → CreateRequest → (String → CreateRequest) → Option CreateRequest
text_field null d set = some d
text_field (str t) d set = some (set t)
text_field v d set = none

abbrev int_field : Json → CreateRequest → (ℕ → CreateRequest) → Option CreateRequest
int_field null d set = some d
int_field (num t) d set = elim (digits_from 0 t) [
  | none ↦ none
  | some n ↦ if ltb n int_limit then some (set n) else none
]
int_field v d set = none

-- One key of the object; a key that the request does not have is passed over.
unfoldable pub set_field : String → Json → CreateRequest → Option CreateRequest
unfolding digits_from same_name
set_field k v d =
    if same_name k "name"
    then text_field v d (λ t. record d { name = t })
    else if same_name k "vpc_id"
    then text_field v d (λ t. record d { vpc_id = t })
    else if same_name k "vcpus"
    then int_field v d (λ n. record d { vcpus = n })
    else if same_name k "ram_mb"
    then int_field v d (λ n. record d { ram_mb = n })
    else if same_name k "disk_gb"
    then int_field v d (λ n. record d { disk_gb = n })
    else if same_name k "os_image"
    then text_field v d (λ t. record d { os_image = t })
    else if same_name k "ssh_pubkey"
    then text_field v d (λ t. record d { ssh_pubkey = t })
    else some d

unfoldable pub set_fields : Fields → CreateRequest → Option CreateRequest
unfolding set_field
set_fields end d = some d
set_fields (field k v fs) d = elim (set_field k v d) [ none ↦ none | some d' ↦ set_fields fs d' ]

-- `readJSON` of the body.
unfoldable pub read_create : Json → Option CreateRequest
unfolding set_fields
read_create (obj fs) = set_fields fs zero_request
read_create null = some zero_request
read_create v = none

-- The checks at the head of `InstanceService.Create`: `none` if all pass, or the error.
unfoldable pub check_create : CreateRequest → Option String
check_create d =
    if d.name == ""
    then some "name is required"
    else if ltb d.vcpus 1
    then some "vcpus must be >= 1"
    else if ltb d.ram_mb 512
    then some "ram_mb must be >= 512"
    else if d.vpc_id == ""
    then some "vpc_id is required"
    else none

-- `writeError`, of handler/node.go.
unfoldable pub write_error : ℕ → String → Response
write_error status message = record {
  status = status;
  json = value (obj (field "error" (str message) end));
}

-- The handler `Delete`, given the instance that the store finds and the error of the service's
-- `Delete`, if there is one. The body of a 204 is empty, and the client does not read it.
unfoldable pub delete_instance : Option ApiInstance → Option String → Response
unfolding write_error
delete_instance none failure = write_error 404 "instance not found"
delete_instance (some i) failure =
    if i.status == "running"
    then write_error 409 "stop the instance before deleting"
    else elim failure [
      | some m ↦ write_error 500 m
      | none ↦ record { status = 204; json = unreadable "Unexpected end of JSON input" }
    ]
