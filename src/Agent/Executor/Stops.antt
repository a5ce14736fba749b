-- ===== src/Agent/Executor/Stops.antt =====
-- agent/internal/executor/executor.go and controller/internal/service/instance.go: a stop, from the
-- service of the controller to the database after the agent's report.
use rig_stack.Prelude.{String, Bool, true, false, ◌≡◌, refl, [], ◌∷◌, some}
use rig_stack.Controller.Tables.{InstanceRow, Env}
use rig_stack.Controller.Store.Instances as Rows
use rig_stack.Controller.Service.{System}
use rig_stack.Controller.Service.Instances.{stop_vm, stop}
use rig_stack.Controller.Service.Instances.Addresses.{found_again}
use rig_stack.Agent.Host.{
  report, Past, Host, Outcome, returned, failed, panicked, unfinished, ◌>>◌, and_then, tell,
  reports,
}
use rig_stack.Agent.Commands.{read_vm}
use rig_stack.Agent.Libvirt as Libvirt
use rig_stack.Agent.Libvirt.Stopping.{IsTicking, IsOff, Stopped, stop_vm-Stopped}
use rig_stack.Agent.Executor.{Executor, with_libvirt, handle, stopped_vm}
use rig_stack.Agent.Executor.Settling.{told, with_report, reported_row, Shows}

-- The row of an instance that was asked to stop.
abbrev pub stopping_row : Env → InstanceRow → InstanceRow
stopping_row env i = record i { status = "stopping"; ip_address = ""; updated_at = env.now }

module _ (env : Env) (id : String) (row : InstanceRow) (sys : System) (host : Host)
    (name : String) where
  -- What the database says at the end of a stop.
  abbrev pub Halted : Bool → Outcome (Unit {0}) × Past → Type 0
  Halted lib (returned u, now) =
      ((past : Past) × (now ≡ report id "stopped" "" ∷ past) × IsOff host name [] past)
      × Shows env id row sys now (with_report env "stopped" "" row)
  Halted lib (failed m, now) = Shows env id row sys now row
  Halted lib (panicked, now) = Shows env id row sys now row × (lib ≡ false)
  Halted lib (unfinished, now) = true ≡ false

  module _ (h : Rows.get id sys.db ≡ some row) where
    untold : (now : Past) → reports now ≡ [] → Shows env id row sys now row
    unfolding told
    untold now e = rw e h

    halted :
        (p : Outcome (Unit {0}) × Past)
        → Stopped host name [] p
        → Halted true (and_then host p (λ u. tell id "stopped" ""))
    unfolding told
    halted (returned u, now) (kept, off) =
        ((now, refl, off), rw kept (reported_row env id "stopped" "" row sys h))
    halted (failed m, now) kept = untold now kept
    halted (panicked, now) k = cc
    halted (unfinished, now) k = k

    by_libvirt :
        (lib : Bool)
        → IsTicking host
        → Halted lib
            ((with_libvirt lib (Libvirt.stop_vm 16 name false) >> tell id "stopped" "") host [])
    by_libvirt true ticks = halted _ (stop_vm-Stopped host name false [] ticks)
    by_libvirt false ticks = (untold [] refl, refl)

-- An instance is stopped, and the agent, on a host whose clock goes on, carries out the command that was
-- queued. It comes to an end. If it succeeds, then libvirt found a domain under the instance's name, and
-- that domain was seen to be off or destroyed just before the report, and the database has the
-- instance as stopped once the report has arrived. If it fails, or panics, which it does only without
-- libvirt, the instance stays in `stopping`.
pub stop_settles :
    (env : Env) (bad_json id : String) (e : Executor) (host : Host) (i : InstanceRow) (sys : System)
    → Rows.get id sys.db ≡ some i
    → IsTicking host
    → Halted env id
        (stopping_row env i)
        (stop env id sys).1
        host
        i.name
        e.libvirt
        (handle bad_json e (stop_vm id i) host [])
unfolding handle read_vm stopped_vm stop
stop_settles env bad_json id e host i sys h ticks =
    by_libvirt env id (stopping_row env i) (stop env id sys).1 host i.name
      (rw (stop, h) (found_again env id "stopping" "" i sys.db h)) e.libvirt ticks
