-- ===== src/Agent/Host.antt =====
-- agent/internal: what the agent asks of its node, and how its functions call each other. The tools
-- of the node, libvirt and the files are not code of the repository: a `Host` gives each reply, which
-- may depend on all that was asked before. `◌>>=◌` is the sequence of Go's statements, where an
-- error is returned at once, and `attempt` is a call whose error is looked at or dropped.
use rig_stack.Prelude.{ℕ, String, ◌<>◌, Option, List, [], ◌∷◌}
use rig_stack.Client.Http.{Result, ok, err}
use rig_stack.Controller.Tables.{IpNet}

-- `run` is `exec.Command`; the acts from `lookup` to `undefine` are calls of libvirt, on the handle
-- of a domain except `lookup`, on its name, and `define`, on its XML. `report` is the call of
-- `ReportVMStatus` of the controller: the id, the status and the address.
pub data Act : Type 0 where
  run : List String → Act
  make_dir remove_all : String → Act
  write_file : String → String → Act
  random_bytes list_domains list_active ask_info ask_free : Act
  lookup define launch destroy shutdown undefine ask_state : String → Act
  sleep : ℕ → Act
  report : String → String → String → Act

-- The acts so far, the newest first.
abbrev pub Past : Type 0
Past = List Act

-- A domain in the list of libvirt: the 16 bytes of its UUID, and its name, which is also its handle.
pub record Domain : Type 0 where
  pub uuid : List ℕ
  pub name : String

-- The replies of the node: the output of a tool or the handle of a domain, or the text of the error,
-- with the output where the agent prints it; the code of the state of a domain; all domains, and those
-- that are active; the memory in kilobytes and the number of processors; the free memory in bytes;
-- three random bytes; the clock, in seconds; and `net.ParseCIDR`, with the text of its error.
pub record Host : Type 0 where
  pub reply : Past → Act → Result String
  pub state : Past → String → Result ℕ
  pub domains : Past → Result (List Domain)
  pub active : Past → Result (List Domain)
  pub info : Past → Result (ℕ × ℕ)
  pub free_memory : Past → Result ℕ
  pub bytes : Past → Result (ℕ × ℕ × ℕ)
  pub clock : Past → ℕ
  pub parse_cidr : String → Option IpNet
  pub bad_cidr : String

-- How a call ends. `panicked` is the dereference of a nil pointer, which ends the agent; `unfinished`
-- is a loop that was cut off.
pub data Outcome {ℓ} (A : Type ℓ) : Type ℓ where
  returned : A → Outcome A
  failed : String → Outcome A
  panicked unfinished : Outcome A

abbrev pub M {ℓ} : Type ℓ → Type ℓ
M A = Host → Past → Outcome A × Past

abbrev pub and_then {ℓ κ} :
    {A : Type ℓ} {B : Type κ} → Host → Outcome A × Past → (A → M B) → Outcome B × Past
and_then host (returned a, past) f = f a host past
and_then host (failed e, past) f = (failed e, past)
and_then host (panicked, past) f = (panicked, past)
and_then host (unfinished, past) f = (unfinished, past)

infixl 5 ◌>>=◌ ◌>>◌
abbrev pub ◌>>=◌ {ℓ κ} : {A : Type ℓ} {B : Type κ} → M A → (A → M B) → M B
◌>>=◌ m f host past = and_then host (m host past) f

abbrev pub ◌>>◌ {ℓ} : {B : Type ℓ} → M (Unit {0}) → M B → M B
m >> k = m >>= λ _. k

abbrev pub pure {ℓ} : {A : Type ℓ} → A → M A
pure a host past = (returned a, past)

abbrev pub fail {ℓ} : {A : Type ℓ} → String → M A
fail e host past = (failed e, past)

abbrev pub panic {ℓ} : {A : Type ℓ} → M A
panic host past = (panicked, past)

-- A reply as the end of a call.
abbrev pub ended {ℓ} : {A : Type ℓ} → Result A → Outcome A
ended (ok a) = returned a
ended (err e) = failed e

abbrev pub perform : Act → M String
perform act host past = (ended (host.reply past act), act ∷ past)

-- A call whose result is not used, but whose error is.
abbrev pub must : Act → M (Unit {0})
must act = perform act >>= λ output. pure tt

abbrev pub domain_state : String → M ℕ
domain_state dom host past = (ended (host.state past dom), ask_state dom ∷ past)

abbrev pub all_domains : M (List Domain)
all_domains host past = (ended (host.domains past), list_domains ∷ past)

abbrev pub active_domains : M (List Domain)
active_domains host past = (ended (host.active past), list_active ∷ past)

abbrev pub memory_and_cpus : M (ℕ × ℕ)
memory_and_cpus host past = (ended (host.info past), ask_info ∷ past)

abbrev pub free_memory : M ℕ
free_memory host past = (ended (host.free_memory past), ask_free ∷ past)

abbrev pub draw : M (ℕ × ℕ × ℕ)
draw host past = (ended (host.bytes past), random_bytes ∷ past)

abbrev pub now : M ℕ
now host past = (returned (host.clock past), past)

abbrev pub pass : ℕ → M (Unit {0})
pass seconds host past = (returned tt, sleep seconds ∷ past)

-- A report whose error is dropped.
abbrev pub tell : String → String → String → M (Unit {0})
tell vm_id status ip host past = (returned tt, report vm_id status ip ∷ past)

-- `err := m()`.
abbrev pub caught {ℓ} : {A : Type ℓ} → Outcome A × Past → Outcome (Result A) × Past
caught (returned a, past) = (returned (ok a), past)
caught (failed e, past) = (returned (err e), past)
caught (panicked, past) = (panicked, past)
caught (unfinished, past) = (unfinished, past)

abbrev pub attempt {ℓ} : {A : Type ℓ} → M A → M (Result A)
attempt m host past = caught (m host past)

-- `if err := m(); err != nil { g }`, and `f` after it.
abbrev pub recovered {ℓ κ} :
    {A : Type ℓ} {B : Type κ}
    → Host
    → Outcome A × Past
    → (A → M B)
    → (String → M B)
    → Outcome B × Past
recovered host (returned a, past) f g = f a host past
recovered host (failed e, past) f g = g e host past
recovered host (panicked, past) f g = (panicked, past)
recovered host (unfinished, past) f g = (unfinished, past)

abbrev pub recover {ℓ κ} : {A : Type ℓ} {B : Type κ} → M A → (A → M B) → (String → M B) → M B
recover m f g host past = recovered host (m host past) f g

-- `_ = m()`.
abbrev pub ignore {ℓ} : {A : Type ℓ} → M A → M (Unit {0})
ignore m = recover m (λ a. pure tt) (λ e. pure tt)

-- `fmt.Errorf("…: %w", err)`.
abbrev pub blamed {ℓ} : {A : Type ℓ} → String → Outcome A × Past → Outcome A × Past
blamed what (failed e, past) = (failed (what <> ": " <> e), past)
blamed what (o, past) = (o, past)

abbrev pub blame {ℓ} : {A : Type ℓ} → String → M A → M A
blame what m host past = blamed what (m host past)

-- The statuses that were reported, the newest first.
abbrev pub reports : Past → List (String × String × String)
reports [] = []
reports (report vm_id status ip ∷ past) = (vm_id, status, ip) ∷ reports past
reports (act ∷ past) = reports past
