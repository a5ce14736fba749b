-- ===== src/Agent/Commands/Understood.antt =====
-- agent/internal/executor/commands.go and controller/internal/service: the agent reads from each
-- command of the controller what the controller put into it.
use rig_stack.Prelude.{
  ℕ, zero, suc, ◌+◌, ◌*◌, ◌-◌, ◌/◌, ◌%◌, ◌<◌, String, ◌<>◌, false, some, ◌≡◌, refl, ap, ◌∙◌, arith,
  ltb, leb, ◌&&◌, Bool-cases, inl, inr, ltb→lt,
}
use Prim.Native.Char.{code}
use mathlib.Core.Option.{some-injective}
use text.Mathlib.TextLemmas.{nil-append, cons-append}
use rig_stack.Prelude.Text.{decimal, decimal_from, digit}
use rig_stack.Client.Types.{ApiImage}
use rig_stack.Controller.Tables.{VpcRow, InstanceRow}
use rig_stack.Controller.Address.{bridge_name}
use rig_stack.Controller.Instances.{CreateRequest, digits_from}
use rig_stack.Controller.Service.Vpcs.{payload}
use rig_stack.Controller.Service.Instances.{Place, create_vm, start_vm, stop_vm, delete_vm}
use rig_stack.Controller.Service.Images.{download_image}
use rig_stack.Agent.Commands.{
  read_vpc, CreateVmCmd, read_create, read_vm, read_image, unmarshal, set_all, set_create,
}

-- The digits behind those that were read.
digits_from-append :
    (acc n : ℕ) (s t : String)
    → digits_from acc s ≡ some n
    → digits_from acc (s <> t) ≡ digits_from n t
unfolding digits_from
digits_from-append acc n String.[] t h =
    rw (nil-append t) (ap (λ m. digits_from m t) (some-injective _ _ h))
digits_from-append acc n (String.◌∷◌ c s) t h =
    elim (Bool-cases (leb 48 (code c) && leb (code c) 57)) [
      | inl e ↦
          rw (cons-append c s t, e)
            (digits_from-append (10 * acc + (code c - 48)) n s t (rw (digits_from, e) at h))
      | inr e ↦ cc (rw (digits_from, e) at h)
    ]

digits_from-digit : (acc n : ℕ) → n < 10 → digits_from acc (digit n) ≡ some (10 * acc + n)
unfolding digits_from digit
digits_from-digit acc zero h = ground arith
digits_from-digit acc (suc zero) h = ground arith
digits_from-digit acc (suc (suc zero)) h = ground arith
digits_from-digit acc (suc (suc (suc zero))) h = ground arith
digits_from-digit acc (suc (suc (suc (suc zero)))) h = ground arith
digits_from-digit acc (suc (suc (suc (suc (suc zero))))) h = ground arith
digits_from-digit acc (suc (suc (suc (suc (suc (suc zero)))))) h = ground arith
digits_from-digit acc (suc (suc (suc (suc (suc (suc (suc zero))))))) h = ground arith
digits_from-digit acc (suc (suc (suc (suc (suc (suc (suc (suc zero)))))))) h = ground arith
digits_from-digit acc (suc (suc (suc (suc (suc (suc (suc (suc (suc zero))))))))) h = ground arith
digits_from-digit acc (suc (suc (suc (suc (suc (suc (suc (suc (suc (suc n)))))))))) h = ground arith

digits_from-decimal_from : (fuel n : ℕ) → n < fuel → digits_from 0 (decimal_from fuel n) ≡ some n
unfolding decimal_from
digits_from-decimal_from zero n h = ground arith
digits_from-decimal_from (suc fuel) n h = elim (Bool-cases (ltb n 10)) [
  | inl low ↦
      rw (decimal_from, low) (digits_from-digit 0 n (ltb→lt n 10 low) ∙ ap some (omega arith))
  | inr high ↦
      rw
        (
          decimal_from,
          high,
          digits_from-append 0 (n / 10) (decimal_from fuel (n / 10)) (digit (n % 10))
              (digits_from-decimal_from fuel (n / 10) (ground arith)),
          digits_from-digit (n / 10) (n % 10) (omega arith),
        )
        (ap some (omega arith))
]

-- A number that was printed is read as itself.
pub digits_from-decimal : (n : ℕ) → digits_from 0 (decimal n) ≡ some n
unfolding decimal
digits_from-decimal n = digits_from-decimal_from (suc n) n (omega arith)

-- The command that the agent reads for a new instance.
abbrev pub creation : String → String → CreateRequest → Place → CreateVmCmd
creation fresh password req p = record {
  vm_id = fresh;
  name = req.name;
  vcpus = req.vcpus;
  ram_mb = req.ram_mb;
  disk_gb = req.disk_gb;
  os_image = req.os_image;
  bridge_name = bridge_name req.vpc_id;
  vpc_id = req.vpc_id;
  vpc_cidr = p.vpc.cidr;
  ip_address = p.address.ip;
  prefix = p.address.prefix;
  gateway = p.address.gateway;
  ssh_pubkey = req.ssh_pubkey;
  password = password;
}

-- The command of the controller for a new instance is read whole: the agent gets the id, the sizes,
-- the address, the bridge and the range that the controller chose.
pub creation_understood :
    (fresh password : String) (req : CreateRequest) (p : Place)
    → read_create (create_vm fresh password req p).payload ≡ some (creation fresh password req p)
unfolding read_create unmarshal set_all set_create
creation_understood fresh password req p = rw (
  read_create,
  unmarshal,
  set_all,
  set_create,
  digits_from-decimal req.disk_gb,
  digits_from-decimal p.address.prefix,
  digits_from-decimal req.ram_mb,
  digits_from-decimal req.vcpus,
)

-- The other commands of the controller are read as the rows that they were made of: what a start and
-- a deletion of an instance name, that a stop is never forced, and VPCs and images.
pub commands_understood :
    (id cidr : String) (i : InstanceRow) (vpc : VpcRow) (img : ApiImage)
    → (read_vm (start_vm id i vpc).payload
        ≡ some (record {
          vm_id = id;
          name = i.name;
          force = false;
          vpc_id = i.vpc_id;
          vpc_cidr = vpc.cidr;
        }))
      × (read_vm (stop_vm id i).payload
          ≡ some (record { vm_id = id; name = i.name; force = false; vpc_id = ""; vpc_cidr = "" }))
      × (read_vm (delete_vm id i).payload
          ≡ some (record { vm_id = id; name = i.name; force = false; vpc_id = ""; vpc_cidr = "" }))
      × (read_vpc (payload id cidr) ≡ some (record { vpc_id = id; cidr = cidr }))
      × (read_image (download_image img).payload ≡ some (record { name = img.id; url = img.url }))
unfolding read_vm read_vpc read_image
commands_understood id cidr i vpc img = (refl, refl, refl, refl, refl)
