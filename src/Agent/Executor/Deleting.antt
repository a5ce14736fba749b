-- ===== src/Agent/Executor/Deleting.antt =====
-- agent/internal/executor/executor.go: the deletion of a machine and of its files.
use rig_stack.Prelude.{String, ◌<>◌, Bool, true, false, ◌≡◌, refl, [], ◌∷◌, inl, inr}
use rig_stack.Client.Http.{ok, err}
use rig_stack.Controller.Tables.{InstanceRow}
use rig_stack.Controller.Service.Instances.{delete_vm}
use rig_stack.Controller.Service.Instances.Found.{Result-cases}
use rig_stack.Agent.Host.{
  remove_all, Past, Host, Outcome, returned, failed, panicked, unfinished, M, ◌>>◌, and_then, pure,
  recovered, ignore, blame, must,
}
use rig_stack.Agent.Commands.{read_vm}
use rig_stack.Agent.Libvirt as Libvirt
use rig_stack.Agent.Libvirt.{get_domain, is_running}
use rig_stack.Agent.Storage as Storage
use rig_stack.Agent.Storage.{paths_for}
use rig_stack.Agent.Executor.{Executor, with_libvirt, handle, deleted_vm}
use rig_stack.Agent.Executor.Quiet.{
  IsQuiet, Silent, ended-calm, bind-IsQuiet, attempt-IsQuiet, blame-IsQuiet, if-IsQuiet,
  ignore-IsQuiet, perform-IsQuiet, must-IsQuiet, done-IsQuiet, after-IsQuiet,
}

delete_vm-IsQuiet : (name : String) → IsQuiet (Libvirt.delete_vm name)
unfolding Libvirt.delete_vm get_domain
delete_vm-IsQuiet name =
    bind-IsQuiet _ _ (blame-IsQuiet _ _ (perform-IsQuiet _ (λ p. refl))) (λ dom.
      bind-IsQuiet _ _ (attempt-IsQuiet _ (λ host past. (refl, ended-calm (host.state past dom))))
        (λ r.
          after-IsQuiet _ _
            (if-IsQuiet (is_running r) _ _ (ignore-IsQuiet _ (perform-IsQuiet _ (λ p. refl)))
              done-IsQuiet)
            (blame-IsQuiet _ _ (must-IsQuiet _ (λ p. refl)))))

module _ (host : Host) (lib : Bool) (dir : String) where
  -- The last act was the removal of the directory, and it went as the deletion did; or the agent
  -- panicked at once, without libvirt.
  abbrev pub Removed : Outcome (Unit {0}) × Past → Type 0
  Removed (returned u, now) =
      (past : Past) × (output : String) × (now ≡ remove_all dir ∷ past)
      × (host.reply past (remove_all dir) ≡ ok output)
  Removed (failed m, now) =
      (past : Past) × (e : String) × (now ≡ remove_all dir ∷ past)
      × (host.reply past (remove_all dir) ≡ err e)
  Removed (panicked, now) = (lib ≡ false) × (now ≡ [])
  Removed (unfinished, now) = true ≡ false

  abbrev remove : String → String → M (Unit {0})
  remove what why = blame what (blame why (must (remove_all dir)))

  removed : (what why : String) (past : Past) → Removed (remove what why host past)
  removed what why past = elim (Result-cases (host.reply past (remove_all dir))) [
    | inl (m, e) ↦ rw e (past, m, refl, e)
    | inr (output, e) ↦ rw e (past, output, refl, e)
  ]

  removed_after :
      (what why : String) (p : Outcome (Unit {0}) × Past)
      → Silent [] p
      → Removed (
          and_then {0, 0} host
            (recovered host p (λ u. pure {0} tt) (λ e. pure {0} tt))
            (λ u. remove what why))
  removed_after what why (returned u, now) s = removed what why now
  removed_after what why (failed m, now) s = removed what why now
  removed_after what why (panicked, now) (kept, came) = cc
  removed_after what why (unfinished, now) (kept, came) = cc

by_libvirt :
    (host : Host) (lib : Bool) (dir what why name : String)
    → Removed host lib dir (
        (ignore (with_libvirt lib (Libvirt.delete_vm name)) >> remove host lib dir what why) host
          [])
by_libvirt host true dir what why name =
    removed_after host true dir what why (Libvirt.delete_vm name host [])
      (delete_vm-IsQuiet name host [])
by_libvirt host false dir what why name = (refl, refl)

-- The agent carries out the command that the controller queued for the deletion of an instance. It comes
-- to an end whose last act is the removal of the directory of the instance, whatever libvirt said
-- before, and it succeeds exactly if that did; or it panics without libvirt, and then it has
-- removed nothing.
pub deletion_removes :
    (bad_json id : String) (e : Executor) (host : Host) (i : InstanceRow)
    → Removed host e.libvirt (paths_for id).dir (handle bad_json e (delete_vm id i) host [])
unfolding handle read_vm deleted_vm Storage.delete
deletion_removes bad_json id e host i =
    by_libvirt host e.libvirt (paths_for id).dir "delete vm storage"
      ("remove vm dir " <> (paths_for id).dir) i.name
