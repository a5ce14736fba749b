-- ===== src/Agent/Executor.antt =====
-- agent/internal/executor/executor.go: how the commands of the controller are carried out. Each runs
-- in a goroutine of its own; here it runs as a whole.
pub mod Quiet
pub mod Calls
pub mod Reporting
pub mod Settling
pub mod Stops
pub mod Paths
pub mod Deleting
use Prim.Native.Char.{code}
use rig_stack.Prelude.{
  ℕ, String, ◌<>◌, ◌==◌, Bool, true, false, ◌&&◌, ◌||◌, not, Option, none, some, List, [], ◌∷◌, eqb,
  leb, truthy, if◌then◌else◌,
}
use rig_stack.Client.Http.{Result, ok, err, Json}
use rig_stack.Controller.Dispatcher.{Command}
use rig_stack.Agent.Host.{
  Act, run, Host, Past, M, ◌>>=◌, ◌>>◌, pure, fail, panic, perform, must, recover, ignore, blame,
  tell,
}
use rig_stack.Agent.Commands.{
  VpcCmd, read_vpc, CreateVmCmd, read_create, VmCmd, read_vm, ImageCmd, read_image,
}
use rig_stack.Agent.Domain.{VmSpec, random_mac}
use rig_stack.Agent.Network.{create_vpc, delete_vpc, ensure_bridge}
use rig_stack.Agent.Libvirt.{create_vm, start_vm, stop_vm, delete_vm}
use rig_stack.Agent.Storage.{VmPaths, CloudInit, join, provision}
use rig_stack.Agent.Storage as Storage

-- `Executor`: the uplink of the network manager, if there is one, and whether libvirt is connected.
pub record Executor : Type 0 where
  pub net : Option String
  pub libvirt : Bool

-- A call of a method on `e.lv`, which each of them dereferences.
abbrev pub with_libvirt {ℓ} : {A : Type ℓ} → Bool → M A → M A
with_libvirt true m = m
with_libvirt false m = panic

-- `json.Unmarshal` of the payload; the text of its error is `bad_json`.
abbrev pub parsed {ℓ} : {A : Type ℓ} → String → String → Option A → M A
parsed bad_json kind none = fail ("parse " <> kind <> " payload: " <> bad_json)
parsed bad_json kind (some cmd) = pure cmd

-- `safeImageName`.
unfoldable pub safe_char : ℕ → Bool
safe_char c =
    (leb b'a' c && leb c b'z')
    || (leb b'A' c && leb c b'Z')
    || (leb b'0' c && leb c b'9')
    || eqb c b'.'
    || eqb c b'_'
    || eqb c b'-'

unfoldable pub all_safe : String → Bool
unfolding safe_char
all_safe String.[] = true
all_safe (String.◌∷◌ c s) = safe_char (code c) && all_safe s

unfoldable pub safe_image_name : String → Bool
unfolding all_safe
safe_image_name name = truthy name && all_safe name

-- The file of an image, in `baseImageDir`.
unfoldable pub image_path : String → String
unfolding join
image_path name = join "/var/lib/rigstack/base" (name <> ".qcow2")

-- What a command does where a step of it fails: it reports that, and its own error has `what` in
-- front.
abbrev pub or_report {ℓ} : {A : Type ℓ} → String → String → M A → M A
or_report vm_id what m = recover m (λ a. pure a) (λ e. tell vm_id "error" "" >> fail (what <> e))

-- The guarded call of `EnsureBridge`.
unfoldable pub ensure_for : Executor → String → String → M (Unit {0})
ensure_for e vpc_id cidr = elim e.net [
  | none ↦ pure tt
  | some uplink ↦ if truthy vpc_id && truthy cidr then ensure_bridge uplink vpc_id cidr else pure tt
]

abbrev pub cloud_init : CreateVmCmd → String → CloudInit
cloud_init cmd mac = record {
  hostname = cmd.name;
  ip_address = cmd.ip_address;
  prefix = cmd.prefix;
  gateway = cmd.gateway;
  mac = mac;
  ssh_pubkey = cmd.ssh_pubkey;
  password = cmd.password;
  password_hash = "";
}

abbrev pub vm_spec : CreateVmCmd → String → VmPaths → VmSpec
vm_spec cmd mac paths = record {
  id = cmd.vm_id;
  name = cmd.name;
  vcpus = cmd.vcpus;
  ram_mb = cmd.ram_mb;
  disk_path = paths.disk_path;
  cloud_init_path = paths.cloud_init_path;
  bridge_name = cmd.bridge_name;
  mac = mac;
}

-- `createVM` from the check of the image on.
unfoldable pub build_vm : Executor → CreateVmCmd → M (Unit {0})
build_vm e cmd =
    if not (safe_image_name cmd.os_image)
    then fail ("invalid os_image name: \"" <> cmd.os_image <> "\"")
    else do
      mac ← blame "generate mac" random_mac
      paths ←
          or_report cmd.vm_id "provision storage: "
            (provision cmd.vm_id (image_path cmd.os_image) cmd.disk_gb (cloud_init cmd mac))
      or_report cmd.vm_id "create vm in libvirt: "
          (with_libvirt e.libvirt (create_vm (vm_spec cmd mac paths)))
      tell cmd.vm_id "running" cmd.ip_address

-- `createVM`, once its payload is read.
unfoldable pub made_vm : Executor → CreateVmCmd → M (Unit {0})
unfolding ensure_for build_vm
made_vm e cmd = do
  tell cmd.vm_id "pending" ""
  or_report cmd.vm_id "ensure bridge for vpc: " (ensure_for e cmd.vpc_id cmd.vpc_cidr)
  build_vm e cmd

-- `startVM`, in the same way.
unfoldable pub started_vm : Executor → VmCmd → M (Unit {0})
unfolding ensure_for
started_vm e cmd = do
  or_report cmd.vm_id "ensure bridge: " (ensure_for e cmd.vpc_id cmd.vpc_cidr)
  or_report cmd.vm_id "" (with_libvirt e.libvirt (start_vm cmd.name))
  tell cmd.vm_id "running" ""

-- `stopVM`: the loop of libvirt's `StopVM` needs at most 16 rounds.
unfoldable pub stopped_vm : Executor → VmCmd → M (Unit {0})
stopped_vm e cmd = do
  with_libvirt e.libvirt (stop_vm 16 cmd.name cmd.force)
  tell cmd.vm_id "stopped" ""

-- `deleteVM`: what libvirt says is not used.
unfoldable pub deleted_vm : Executor → VmCmd → M (Unit {0})
deleted_vm e cmd = do
  ignore (with_libvirt e.libvirt (delete_vm cmd.name))
  blame "delete vm storage" (Storage.delete cmd.vm_id)

-- `downloadImage`. The error has the text of `%q` of a name without quotes.
unfoldable pub downloaded : ImageCmd → M (Unit {0})
downloaded cmd =
    if not (safe_image_name cmd.name)
    then fail ("invalid image name: \"" <> cmd.name <> "\"")
    else do
      let target = image_path cmd.name
      let part = target <> ".tmp"
      recover (perform (run ("wget" ∷ "-q" ∷ "--show-progress" ∷ "-O" ∷ part ∷ cmd.url ∷ [])))
          (λ output. must (run ("mv" ∷ part ∷ target ∷ [])))
          (λ m.
            ignore (perform (run ("rm" ∷ "-f" ∷ part ∷ [])))
            >> fail ("download image \"" <> cmd.name <> "\": " <> m))

-- `createVPC` and `deleteVPC`.
unfoldable pub made_vpc : Executor → VpcCmd → M (Unit {0})
made_vpc e cmd = elim e.net [
  | none ↦ fail "network manager not available"
  | some uplink ↦ create_vpc uplink cmd.vpc_id cmd.cidr
]

unfoldable pub deleted_vpc : Executor → VpcCmd → M (Unit {0})
deleted_vpc e cmd = elim e.net [
  | none ↦ pure tt
  | some uplink ↦ delete_vpc uplink cmd.vpc_id cmd.cidr
]

-- `Handle`: a kind that is not known does nothing.
unfoldable pub handle : String → Executor → Command → M (Unit {0})
unfolding made_vpc deleted_vpc downloaded made_vm started_vm stopped_vm deleted_vm
handle bad_json e c =
    if c.kind == "create_vpc"
    then parsed bad_json c.kind (read_vpc c.payload) >>= made_vpc e
    else if c.kind == "delete_vpc"
    then parsed bad_json c.kind (read_vpc c.payload) >>= deleted_vpc e
    else if c.kind == "download_image"
    then parsed bad_json c.kind (read_image c.payload) >>= downloaded
    else if c.kind == "create_vm"
    then parsed bad_json c.kind (read_create c.payload) >>= made_vm e
    else if c.kind == "start_vm"
    then parsed bad_json c.kind (read_vm c.payload) >>= started_vm e
    else if c.kind == "stop_vm"
    then parsed bad_json c.kind (read_vm c.payload) >>= stopped_vm e
    else if c.kind == "delete_vm"
    then parsed bad_json c.kind (read_vm c.payload) >>= deleted_vm e
    else pure tt
