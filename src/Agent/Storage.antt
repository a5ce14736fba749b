-- ===== src/Agent/Storage.antt =====
-- agent/internal/storage/local.go: the files of a machine. The paths have only `/` as a separator.
use Prim.Native.Char.{Char, code}
use rig_stack.Prelude.{ℕ, String, ◌<>◌, ◌==◌, ◌||◌, List, [], ◌∷◌, eqb, truthy, if◌then◌else◌}
use rig_stack.Prelude.Text.{decimal, split_slash}
use rig_stack.Agent.Host.{
  Act, run, make_dir, write_file, remove_all, M, ◌>>=◌, ◌>>◌, pure, perform, must, recover, blame,
}

-- `filepath.Clean` of a path from the root, on its parts; `front` has the parts before, the last one
-- first.
abbrev drop_last : List String → List String
drop_last [] = []
drop_last (p ∷ ps) = ps

unfoldable pub cleaned : List String → List String → List String
cleaned front [] = front
cleaned front (p ∷ ps) =
    if p == "" || p == "."
    then cleaned front ps
    else if p == ".."
    then cleaned (drop_last front) ps
    else cleaned (p ∷ front) ps

unfoldable pub from_root : List String → String
from_root [] = ""
from_root (p ∷ front) = from_root front <> "/" <> p

abbrev pub rooted : List String → String
rooted [] = "/"
rooted (p ∷ front) = from_root (p ∷ front)

-- `filepath.Join` of a path from the root and a name.
unfoldable pub join : String → String → String
unfolding split_slash cleaned from_root
join dir name = rooted (cleaned [] (split_slash (dir <> "/" <> name)))

-- `filepath.Base` of a path that `Join` has made.
abbrev pub last_part : List String → String
last_part [] = "/"
last_part (p ∷ front) = p

unfoldable pub base_name : String → String
unfolding split_slash cleaned
base_name path = last_part (cleaned [] (split_slash path))

-- `VMPaths`.
pub record VmPaths : Type 0 where
  pub dir : String
  pub disk_path : String
  pub cloud_init_path : String

-- `PathsFor`.
unfoldable pub paths_for : String → VmPaths
unfolding join
paths_for vm_id =
    let dir = join (join "/var/lib/rigstack" "images") vm_id in
    record {
      dir = dir;
      disk_path = join dir "disk.qcow2";
      cloud_init_path = join dir "cloudinit.iso";
    }

-- `CloudInitConfig`.
pub record CloudInit : Type 0 where
  pub hostname : String
  pub ip_address : String
  pub prefix : ℕ
  pub gateway : String
  pub mac : String
  pub ssh_pubkey : String
  pub password : String
  pub password_hash : String

-- `createDisk`.
unfoldable pub create_disk : String → String → ℕ → M (Unit {0})
create_disk disk_path base_image size_gb = blame "qemu-img create" (
    must (
      run (
        "qemu-img"
        ∷ "create"
        ∷ "-f"
        ∷ "qcow2"
        ∷ "-b"
        ∷ base_image
        ∷ "-F"
        ∷ "qcow2"
        ∷ disk_path
        ∷ (decimal size_gb <> "G")
        ∷ [])))

-- The loop of `hashPassword`, which takes line ends from the end of a text.
abbrev before_ends : Char → String → String
before_ends c rest =
    if rest == ""
    then (if eqb (code c) 10 || eqb (code c) 13 then "" else String.◌∷◌ c "")
    else String.◌∷◌ c rest

unfoldable pub drop_line_ends : String → String
drop_line_ends String.[] = ""
drop_line_ends (String.◌∷◌ c s) = before_ends c (drop_line_ends s)

-- `hashPassword`.
unfoldable pub hash_password : String → M String
unfolding drop_line_ends
hash_password plain = do
  output ← blame "openssl passwd" (perform (run ("openssl" ∷ "passwd" ∷ "-6" ∷ plain ∷ [])))
  pure (drop_line_ends output)

-- The texts of the templates `userDataTmpl` and `networkConfigTmpl`.
unfoldable pub user_data : CloudInit → String
user_data ci =
    "#cloud-config\nusers:\n  - name: rigstack\n    sudo: ALL=(ALL) NOPASSWD:ALL\n"
    <> "    shell: /bin/bash\n    lock_passwd: false"
    <> (if truthy ci.password_hash then "\n    passwd: " <> ci.password_hash else "")
    <> (if truthy ci.ssh_pubkey
        then "\n    ssh_authorized_keys:\n      - " <> ci.ssh_pubkey
        else "")
    <> "\n\nchpasswd:\n  expire: false\n\nssh_pwauth: true\n\npackage_update: false\npackages:\n"
    <> "  - qemu-guest-agent\n\nruncmd:\n  - systemctl enable --now qemu-guest-agent\n"

unfoldable pub network_config : CloudInit → String
network_config ci =
    "version: 2\nethernets:\n  primary:\n    match:\n      macaddress: \""
    <> ci.mac
    <> "\"\n    set-name: eth0\n    addresses:\n      - "
    <> ci.ip_address
    <> "/"
    <> decimal ci.prefix
    <> "\n    routes:\n      - to: default\n        via: "
    <> ci.gateway
    <> "\n    nameservers:\n      addresses:\n        - 8.8.8.8\n        - 1.1.1.1\n"

unfoldable pub meta_data : VmPaths → CloudInit → String
unfolding base_name
meta_data paths ci =
    "instance-id: " <> base_name paths.dir <> "\nlocal-hostname: " <> ci.hostname <> "\n"

-- The call of `genisoimage` or of `mkisofs`.
abbrev pub make_iso : String → VmPaths → Act
make_iso tool paths = run (
    tool
    ∷ "-output"
    ∷ paths.cloud_init_path
    ∷ "-volid"
    ∷ "cidata"
    ∷ "-joliet"
    ∷ "-rock"
    ∷ join paths.dir "user-data"
    ∷ join paths.dir "meta-data"
    ∷ join paths.dir "network-config"
    ∷ [])

-- The password as it is set: its hash, or none if it cannot be made.
unfoldable pub with_hash : CloudInit → M CloudInit
unfolding hash_password
with_hash ci =
    if truthy ci.password
    then recover (hash_password ci.password) (λ h. pure (record ci { password_hash = h }))
        (λ m. pure ci)
    else pure ci

-- `createCloudInitISO`.
unfoldable pub create_cloud_init_iso : VmPaths → CloudInit → M (Unit {0})
unfolding with_hash user_data network_config meta_data
create_cloud_init_iso paths given = do
  ci ← with_hash given
  blame "write meta-data" (must (write_file (join paths.dir "meta-data") (meta_data paths ci)))
  blame "write user-data" (must (write_file (join paths.dir "user-data") (user_data ci)))
  blame "write network-config"
      (must (write_file (join paths.dir "network-config") (network_config ci)))
  recover (must (make_iso "genisoimage" paths)) (λ made. pure tt)
      (λ m. blame ("genisoimage: " <> m <> "\nmkisofs") (must (make_iso "mkisofs" paths)))

-- `Provision`.
unfoldable pub provision : String → String → ℕ → CloudInit → M VmPaths
unfolding paths_for create_disk create_cloud_init_iso
provision vm_id base_image disk_gb ci = do
  let paths = paths_for vm_id
  blame ("mkdir " <> paths.dir) (must (make_dir paths.dir))
  create_disk paths.disk_path base_image disk_gb
  create_cloud_init_iso paths ci
  pure paths

-- `Delete`.
unfoldable pub delete : String → M (Unit {0})
unfolding paths_for
delete vm_id =
    blame ("remove vm dir " <> (paths_for vm_id).dir) (must (remove_all (paths_for vm_id).dir))
