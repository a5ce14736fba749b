-- ===== src/Agent/Executor/Settling.antt =====
-- agent/internal/executor/executor.go with controller/internal: what the database says of an instance
-- once its command was carried out and the reports of that have arrived.
use rig_stack.Prelude.{
  String, Bool, true, false, ◌≡◌, refl, sym, subst, inl, inr, ◌⊎◌, [], ◌∷◌, some, truthy,
  if◌then◌else◌,
}
use rig_stack.Controller.Tables.{VpcRow, InstanceRow, Env}
use rig_stack.Controller.Store.Laws.{find_row-update_rows}
use rig_stack.Controller.Store.Vpcs
use rig_stack.Controller.Store.Instances as Rows
use rig_stack.Controller.Instances.{CreateRequest}
use rig_stack.Controller.Service.{System}
use rig_stack.Controller.Service.Instances.{Place, create_vm, start_vm, start}
use rig_stack.Controller.Service.Instances.Addresses.{power_drops_address}
use rig_stack.Controller.Heartbeat.{report_vm_status}
use rig_stack.Agent.Host.{Past, Host, Outcome, returned, failed, panicked, unfinished, reports}
use rig_stack.Agent.Commands.{read_vm}
use rig_stack.Agent.Commands.Understood.{creation, creation_understood}
use rig_stack.Agent.Executor.{Executor, handle, made_vm}
use rig_stack.Agent.Executor.Reporting.{
  Reports, Reported, Unreported, made_vm-Reported, started_vm-Reported,
}

-- The system after some reports have arrived, the newest first in the list.
unfoldable pub told : Env → Reports → System → System
told env [] sys = sys
told env ((vm_id, status, ip) ∷ older) sys =
    report_vm_status env vm_id status ip (told env older sys)

-- The row of an instance after a report about it.
abbrev pub with_report : Env → String → String → InstanceRow → InstanceRow
with_report env status ip i = record i {
  status = status;
  ip_address = if truthy ip then env.inet_text ip else i.ip_address;
  updated_at = env.now;
}

pub reported_row :
    (env : Env) (id status ip : String) (i : InstanceRow) (sys : System)
    → Rows.get id sys.db ≡ some i
    → Rows.get id (report_vm_status env id status ip sys).db ≡ some (with_report env status ip i)
unfolding Rows.get Rows.update_vm_status report_vm_status
reported_row env id status ip i sys h =
    find_row-update_rows (λ (r : InstanceRow). r.id) id (with_report env status ip) (λ r. refl)
      sys.db.instances i h

module _ (env : Env) (id : String) (i : InstanceRow) (sys : System) where
  -- The row that the database has of the instance after the reports.
  abbrev pub Shows : Past → InstanceRow → Type 0
  Shows now row = Rows.get id (told env (reports now) sys).db ≡ some row

  -- What the database says at the end of a creation.
  abbrev pub Settled : Bool → String → Type 0 → Outcome (Unit {0}) × Past → Type 0
  Settled lib ip Why (returned u, now) = Shows now (with_report env "running" ip i)
  Settled lib ip Why (failed m, now) =
      Shows now (with_report env "error" "" i) ⊎ (Shows now (with_report env "pending" "" i) × Why)
  Settled lib ip Why (panicked, now) = Shows now (with_report env "pending" "" i) × (lib ≡ false)
  Settled lib ip Why (unfinished, now) = true ≡ false

  module _ (h : Rows.get id sys.db ≡ some i) where
    shown_by :
        (now : Past) (rs : Reports) (row : InstanceRow)
        → reports now ≡ rs
        → Rows.get id (told env rs sys).db ≡ some row
        → Shows now row
    shown_by now rs row e k = rw e k

    pending_row :
        Rows.get id (told env ((id, "pending", "") ∷ []) sys).db
        ≡ some (with_report env "pending" "" i)
    unfolding told
    pending_row = reported_row env id "pending" "" i sys h

    then_row :
        (status ip : String)
        → Rows.get id (told env ((id, status, ip) ∷ (id, "pending", "") ∷ []) sys).db
          ≡ some (with_report env status ip i)
    unfolding told
    then_row status ip = reported_row env id status ip _ _ pending_row

    settled :
        (lib : Bool) (ip : String) (Why : Type 0) (p : Outcome (Unit {0}) × Past)
        → Reported lib id ip Why ((id, "pending", "") ∷ []) p
        → Settled lib ip Why p
    settled lib ip Why (returned u, now) r = shown_by now _ _ r (then_row "running" ip)
    settled lib ip Why (failed m, now) (inl r) = inl (shown_by now _ _ r (then_row "error" ""))
    settled lib ip Why (failed m, now) (inr (r, why)) = inr (shown_by now _ _ r pending_row, why)
    settled lib ip Why (panicked, now) (r, gone) = (shown_by now _ _ r pending_row, gone)
    settled lib ip Why (unfinished, now) r = r

handled_creation :
    (bad_json fresh password : String) (e : Executor) (req : CreateRequest) (p : Place)
    (host : Host)
    → handle bad_json e (create_vm fresh password req p) host []
      ≡ made_vm e (creation fresh password req p) host []
unfolding handle
handled_creation bad_json fresh password e req p host =
    rw (handle, creation_understood fresh password req p)

-- The agent carries out the command that the controller queued for a new instance, and its reports
-- arrive. Then the database has the instance as running at the address of the command exactly if the
-- agent succeeded. If it failed, the instance is in error; or it stays pending, where the name of its
-- image was refused or no MAC could be drawn. If the agent panicked, it has no libvirt, and the
-- instance stays pending.
pub creation_settles :
    (env : Env) (bad_json fresh password : String) (e : Executor) (req : CreateRequest) (p : Place)
    (host : Host) (i : InstanceRow) (sys : System)
    → Rows.get fresh sys.db ≡ some i
    → Settled env fresh i sys e.libvirt p.address.ip
        (Unreported (creation fresh password req p) host)
        (handle bad_json e (create_vm fresh password req p) host [])
creation_settles env bad_json fresh password e req p host i sys h =
    subst
      (Settled env fresh i sys e.libvirt p.address.ip
        (Unreported (creation fresh password req p) host))
      (sym (handled_creation bad_json fresh password e req p host))
      (settled env fresh i sys h e.libvirt p.address.ip
        (Unreported (creation fresh password req p) host) _
        (made_vm-Reported e (creation fresh password req p) host []))

-- An instance whose VPC is there is started, the agent succeeds with the command that was queued, and
-- its reports arrive. Then the instance runs, and the database has no address of it.
pub restart_loses_address :
    (env : Env) (bad_json id : String) (e : Executor) (host : Host) (i : InstanceRow) (vpc : VpcRow)
    (sys : System) (now : Past)
    → Rows.get id sys.db ≡ some i
    → Vpcs.get i.vpc_id sys.db ≡ some vpc
    → handle bad_json e (start_vm id i vpc) host [] ≡ (returned tt, now)
    → Rows.get id (told env (reports now) (start env id sys).1).db
      ≡ some (record i { status = "running"; ip_address = ""; updated_at = env.now })
unfolding handle read_vm told
restart_loses_address env bad_json id e host i vpc sys now h v done =
    let (did, starting, did', stopping) = power_drops_address env id i vpc sys h v in
    let ran = subst (Reported e.libvirt id "" (true ≡ false) []) done (
      started_vm-Reported e
        (record {
          vm_id = id;
          name = i.name;
          force = false;
          vpc_id = i.vpc_id;
          vpc_cidr = vpc.cidr;
        })
        host []) in
    rw ran (reported_row env id "running" "" _ (start env id sys).1 starting)
