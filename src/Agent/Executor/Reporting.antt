-- ===== src/Agent/Executor/Reporting.antt =====
-- agent/internal/executor/executor.go: what the controller is told of a command.
use rig_stack.Prelude.{
  String, ◌<>◌, Bool, true, false, ◌≡◌, refl, ◌∙◌, ap, Bool-cases, inl, inr, ◌⊎◌, List, ◌∷◌,
}
use rig_stack.Client.Http.{err}
use rig_stack.Controller.Service.Instances.Found.{Result-cases}
use rig_stack.Agent.Host.{
  report, Past, Host, Outcome, returned, failed, panicked, unfinished, M, ◌>>=◌, ◌>>◌, and_then,
  pure, fail, recovered, tell, reports,
}
use rig_stack.Agent.Commands.{CreateVmCmd, VmCmd}
use rig_stack.Agent.Domain.{random_mac}
use rig_stack.Agent.Libvirt.{create_vm, start_vm}
use rig_stack.Agent.Storage.{VmPaths, provision}
use rig_stack.Agent.Executor.{
  Executor, safe_image_name, image_path, or_report, with_libvirt, cloud_init, vm_spec, build_vm,
  ensure_for, made_vm, started_vm,
}
use rig_stack.Agent.Executor.Quiet.{IsQuiet, Silent}
use rig_stack.Agent.Executor.Calls.{
  ensure_for-IsQuiet, provision-IsQuiet, create_vm-IsQuiet, start_vm-IsQuiet,
}

abbrev pub Reports : Type 0
Reports = List (String × String × String)

-- How a command that starts a machine ends, and what was reported since `before`: that it runs, at its
-- address, exactly if the command succeeds; that there is an error if it fails, or nothing, for a reason
-- `Why`; and the agent only panics for want of libvirt.
abbrev pub Reported : Bool → String → String → Type 0 → Reports → Outcome (Unit {0}) × Past → Type 0
Reported lib vm_id ip Why before (returned u, now) = reports now ≡ (vm_id, "running", ip) ∷ before
Reported lib vm_id ip Why before (failed m, now) =
    (reports now ≡ (vm_id, "error", "") ∷ before) ⊎ ((reports now ≡ before) × Why)
Reported lib vm_id ip Why before (panicked, now) = (reports now ≡ before) × (lib ≡ false)
Reported lib vm_id ip Why before (unfinished, now) = true ≡ false

module _ (vm_id ip : String) (Why : Type 0) (host : Host) (before : Reports) where
  abbrev Ends : Bool → Outcome (Unit {0}) × Past → Type 0
  Ends lib = Reported lib vm_id ip Why before

  -- A step whose failure is reported.
  reported_step :
      {A : Type 0} (lib : Bool) (what : String) (m : M A) (f : A → M (Unit {0})) (past : Past)
      → IsQuiet m
      → reports past ≡ before
      → ((a : A) (now : Past) → reports now ≡ before → Ends lib (f a host now))
      → Ends lib ((or_report vm_id what m >>= f) host past)
  reported_step {A = A} lib what m f past q h k = go (m host past) (q host past)
    where
      go :
          (p : Outcome A × Past)
          → Silent past p
          → Ends lib (
              and_then host
                (recovered host p pure (λ x. tell vm_id "error" "" >> fail (what <> x)))
                f)
      go (returned a, now) (kept, came) = k a now (kept ∙ h)
      go (failed x, now) (kept, came) = inl (ap (λ rs. (vm_id, "error", "") ∷ rs) (kept ∙ h))
      go (panicked, now) (kept, came) = cc
      go (unfinished, now) (kept, came) = cc

  -- The last step, a call of libvirt, and the report that the machine runs.
  launched :
      (lib : Bool) (what : String) (m : M (Unit {0})) (past : Past)
      → IsQuiet m
      → reports past ≡ before
      → Ends lib ((or_report vm_id what (with_libvirt lib m) >> tell vm_id "running" ip) host past)
  launched true what m past q h =
      reported_step true what m (λ u. tell vm_id "running" ip) past q h
        (λ u now k. ap (λ rs. (vm_id, "running", ip) ∷ rs) k)
  launched false what m past q h = (h, refl)

-- Why a creation may end without a report: the name of the image is refused, or no MAC is drawn.
abbrev pub Unreported : CreateVmCmd → Host → Type 0
Unreported cmd host =
    (safe_image_name cmd.os_image ≡ false)
    ⊎ ((past : Past) × (m : String) × (host.bytes past ≡ err m))

module _ (e : Executor) (cmd : CreateVmCmd) (host : Host) (Why : Type 0) (before : Reports) where
  abbrev Created : Outcome (Unit {0}) × Past → Type 0
  Created = Reported e.libvirt cmd.vm_id cmd.ip_address Why before

  -- The steps of a creation that has its MAC.
  abbrev provided : String → M VmPaths
  provided mac = provision cmd.vm_id (image_path cmd.os_image) cmd.disk_gb (cloud_init cmd mac)

  abbrev defined : String → VmPaths → M (Unit {0})
  defined mac paths =
      or_report cmd.vm_id "create vm in libvirt: "
        (with_libvirt e.libvirt (create_vm (vm_spec cmd mac paths)))
      >> tell cmd.vm_id "running" cmd.ip_address

  with_mac :
      (mac : String) (past : Past)
      → reports past ≡ before
      → Created
          ((or_report cmd.vm_id "provision storage: " (provided mac) >>= defined mac) host past)
  with_mac mac past h =
      reported_step cmd.vm_id cmd.ip_address Why host before e.libvirt "provision storage: "
        (provided mac) (defined mac) past
        (provision-IsQuiet cmd.vm_id (image_path cmd.os_image) cmd.disk_gb (cloud_init cmd mac)) h
        (λ paths now k.
          launched cmd.vm_id cmd.ip_address Why host before e.libvirt "create vm in libvirt: "
            (create_vm (vm_spec cmd mac paths)) now (create_vm-IsQuiet (vm_spec cmd mac paths)) k)

  built :
      ((safe_image_name cmd.os_image ≡ false) → Why)
      → ((past : Past) (m : String) → host.bytes past ≡ err m → Why)
      → (past : Past) → reports past ≡ before
      → Created (build_vm e cmd host past)
  unfolding build_vm random_mac
  built unsafe undrawn past h = elim (Bool-cases (safe_image_name cmd.os_image)) [
    | inr bad ↦ rw (build_vm, bad) (inr (h, unsafe bad))
    | inl good ↦ elim (Result-cases (host.bytes past)) [
      | inl (m, refused) ↦
          rw (build_vm, good, random_mac, refused) (inr (h, undrawn past m refused))
      | inr (drawn, given) ↦ rw (build_vm, good, random_mac, given) (with_mac _ _ h)
    ]
  ]

-- After a creation was reported to be pending, the controller is told that the machine runs, at the
-- address of the command, exactly if the creation succeeds. If it fails, an error is reported, or
-- nothing more, and then the name of the image was refused or no MAC could be drawn. The agent only
-- panics if it has no libvirt, with nothing more reported.
pub made_vm-Reported :
    (e : Executor) (cmd : CreateVmCmd) (host : Host) (past : Past)
    → Reported e.libvirt cmd.vm_id cmd.ip_address
        (Unreported cmd host)
        ((cmd.vm_id, "pending", "") ∷ reports past)
        (made_vm e cmd host past)
unfolding made_vm
made_vm-Reported e cmd host past =
    reported_step cmd.vm_id cmd.ip_address (Unreported cmd host) host
      ((cmd.vm_id, "pending", "") ∷ reports past) e.libvirt "ensure bridge for vpc: "
      (ensure_for e cmd.vpc_id cmd.vpc_cidr) (λ u. build_vm e cmd)
      (report cmd.vm_id "pending" "" ∷ past) (ensure_for-IsQuiet e cmd.vpc_id cmd.vpc_cidr) refl
      (λ u now k.
        built e cmd host (Unreported cmd host) ((cmd.vm_id, "pending", "") ∷ reports past) inl
          (λ q m h. inr (q, m, h)) now k)

-- A start reports that the machine runs, without an address, exactly if it succeeds, and an error if it
-- fails; the agent only panics if it has no libvirt, with nothing reported.
pub started_vm-Reported :
    (e : Executor) (cmd : VmCmd) (host : Host) (past : Past)
    → Reported e.libvirt cmd.vm_id "" (true ≡ false) (reports past) (started_vm e cmd host past)
unfolding started_vm
started_vm-Reported e cmd host past =
    reported_step cmd.vm_id "" (true ≡ false) host (reports past) e.libvirt "ensure bridge: "
      (ensure_for e cmd.vpc_id cmd.vpc_cidr)
      (λ u.
        or_report cmd.vm_id "" (with_libvirt e.libvirt (start_vm cmd.name))
        >> tell cmd.vm_id "running" "")
      past (ensure_for-IsQuiet e cmd.vpc_id cmd.vpc_cidr) refl
      (λ u now k.
        launched cmd.vm_id "" (true ≡ false) host (reports past) e.libvirt "" (start_vm cmd.name)
          now (start_vm-IsQuiet cmd.name) k)
