-- ===== src/Agent/Commands.antt =====
-- agent/internal/executor/commands.go: the payloads of the commands, and how `json.Unmarshal` reads
-- them. `null` leaves a field alone, a value of another type is an error, and a key that the command
-- does not have is passed over. The keys are those of the tags; that Go also takes a key in another
-- case is left out.
pub mod Understood
use rig_stack.Prelude.{
  ℕ, ◌+◌, ◌-◌, ◌*◌, String, ◌==◌, Bool, false, Option, none, some, if◌then◌else◌, ltb, leb, ◌&&◌,
}
use rig_stack.Client.Http.{Json, null, bool, num, str, obj, Fields, end, field}
use rig_stack.Controller.Instances.{digits_from}

module _ {A : Type 0} where
  abbrev pub set_text : Json → A → (String → A) → Option A
  set_text null d set = some d
  set_text (str t) d set = some (set t)
  set_text v d set = none

  abbrev pub set_int : Json → A → (ℕ → A) → Option A
  set_int null d set = some d
  set_int (num t) d set = elim (digits_from 0 t) [ none ↦ none | some n ↦ some (set n) ]
  set_int v d set = none

  abbrev pub set_bool : Json → A → (Bool → A) → Option A
  set_bool null d set = some d
  set_bool (bool b) d set = some (set b)
  set_bool v d set = none

  unfoldable pub set_all : (String → Json → A → Option A) → Fields → A → Option A
  set_all set end d = some d
  set_all set (field k v fs) d = elim (set k v d) [ none ↦ none | some d' ↦ set_all set fs d' ]

  -- `json.Unmarshal` into a struct, from its zero value.
  unfoldable pub unmarshal : (String → Json → A → Option A) → A → Json → Option A
  unfolding set_all
  unmarshal set zero_value (obj fs) = set_all set fs zero_value
  unmarshal set zero_value null = some zero_value
  unmarshal set zero_value v = none

-- `CreateVPCCmd` and `DeleteVPCCmd`, which have the same fields.
pub record VpcCmd : Type 0 where
  pub vpc_id : String
  pub cidr : String

unfoldable pub set_vpc : String → Json → VpcCmd → Option VpcCmd
set_vpc k v d =
    if k == "vpc_id"
    then set_text v d (λ t. record d { vpc_id = t })
    else if k == "cidr"
    then set_text v d (λ t. record d { cidr = t })
    else some d

unfoldable pub read_vpc : Json → Option VpcCmd
unfolding set_vpc unmarshal
read_vpc = unmarshal set_vpc (record { vpc_id = ""; cidr = "" })

-- `CreateVMCmd`.
pub record CreateVmCmd : Type 0 where
  pub vm_id : String
  pub name : String
  pub vcpus : ℕ
  pub ram_mb : ℕ
  pub disk_gb : ℕ
  pub os_image : String
  pub bridge_name : String
  pub vpc_id : String
  pub vpc_cidr : String
  pub ip_address : String
  pub prefix : ℕ
  pub gateway : String
  pub ssh_pubkey : String
  pub password : String

abbrev no_vm : CreateVmCmd
no_vm = record {
  vm_id = "";
  name = "";
  vcpus = 0;
  ram_mb = 0;
  disk_gb = 0;
  os_image = "";
  bridge_name = "";
  vpc_id = "";
  vpc_cidr = "";
  ip_address = "";
  prefix = 0;
  gateway = "";
  ssh_pubkey = "";
  password = "";
}

unfoldable pub set_create : String → Json → CreateVmCmd → Option CreateVmCmd
set_create k v d =
    if k == "vm_id"
    then set_text v d (λ t. record d { vm_id = t })
    else if k == "name"
    then set_text v d (λ t. record d { name = t })
    else if k == "vcpus"
    then set_int v d (λ n. record d { vcpus = n })
    else if k == "ram_mb"
    then set_int v d (λ n. record d { ram_mb = n })
    else if k == "disk_gb"
    then set_int v d (λ n. record d { disk_gb = n })
    else if k == "os_image"
    then set_text v d (λ t. record d { os_image = t })
    else if k == "bridge_name"
    then set_text v d (λ t. record d { bridge_name = t })
    else if k == "vpc_id"
    then set_text v d (λ t. record d { vpc_id = t })
    else if k == "vpc_cidr"
    then set_text v d (λ t. record d { vpc_cidr = t })
    else if k == "ip_address"
    then set_text v d (λ t. record d { ip_address = t })
    else if k == "prefix"
    then set_int v d (λ n. record d { prefix = n })
    else if k == "gateway"
    then set_text v d (λ t. record d { gateway = t })
    else if k == "ssh_pubkey"
    then set_text v d (λ t. record d { ssh_pubkey = t })
    else if k == "password"
    then set_text v d (λ t. record d { password = t })
    else some d

unfoldable pub read_create : Json → Option CreateVmCmd
unfolding set_create unmarshal
read_create = unmarshal set_create no_vm

-- `VMCmd`.
pub record VmCmd : Type 0 where
  pub vm_id : String
  pub name : String
  pub force : Bool
  pub vpc_id : String
  pub vpc_cidr : String

unfoldable pub set_vm : String → Json → VmCmd → Option VmCmd
set_vm k v d =
    if k == "vm_id"
    then set_text v d (λ t. record d { vm_id = t })
    else if k == "name"
    then set_text v d (λ t. record d { name = t })
    else if k == "force"
    then set_bool v d (λ b. record d { force = b })
    else if k == "vpc_id"
    then set_text v d (λ t. record d { vpc_id = t })
    else if k == "vpc_cidr"
    then set_text v d (λ t. record d { vpc_cidr = t })
    else some d

unfoldable pub read_vm : Json → Option VmCmd
unfolding set_vm unmarshal
read_vm =
    unmarshal set_vm (record { vm_id = ""; name = ""; force = false; vpc_id = ""; vpc_cidr = "" })

-- What `downloadImage` reads.
pub record ImageCmd : Type 0 where
  pub name : String
  pub url : String

unfoldable pub set_image : String → Json → ImageCmd → Option ImageCmd
set_image k v d =
    if k == "name"
    then set_text v d (λ t. record d { name = t })
    else if k == "url"
    then set_text v d (λ t. record d { url = t })
    else some d

unfoldable pub read_image : Json → Option ImageCmd
unfolding set_image unmarshal
read_image = unmarshal set_image (record { name = ""; url = "" })
