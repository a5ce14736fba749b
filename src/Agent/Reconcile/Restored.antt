-- ===== src/Agent/Reconcile/Restored.antt =====
-- agent/cmd/main.go with controller/internal: what the database says of an instance after the agent has
-- started.
use rig_stack.Prelude.{ℕ, String, ◌==◌, true, false, ◌≡◌, refl, ◌∙◌, ap, sym, List, [], ◌∷◌, All}
use rig_stack.Client.Http.{Result, ok, err}
use rig_stack.Controller.Tables.{InstanceRow, Env}
use rig_stack.Controller.Store.Laws.{find_row-other}
use rig_stack.Controller.Store.Instances as Rows
use rig_stack.Controller.Service.{System}
use rig_stack.Controller.Heartbeat.{report_vm_status}
use rig_stack.Agent.Host.{
  Domain, Past, Host, returned, M, sleep, report, pure, attempt, blame, reports, domain_state,
  all_domains,
}
use rig_stack.Agent.Executor.Quiet.{
  IsQuiet, bind-IsQuiet, attempt-IsQuiet, blame-IsQuiet, ended-calm,
}
use rig_stack.Agent.Executor.Settling.{told, with_report}
use rig_stack.Agent.Reconcile.{
  VmInfo, info, put_info, infos_of, list_vm_infos, report_all, reconcile,
}

other_row :
    (env : Env) (vm : VmInfo) (id : String) (sys : System)
    → (vm.id == id) ≡ false
    → Rows.get id (report_vm_status env vm.id vm.status "" sys).db ≡ Rows.get id sys.db
unfolding Rows.get Rows.update_vm_status report_vm_status
other_row env vm id sys other =
    find_row-other (λ (r : InstanceRow). r.id) vm.id id (with_report env vm.status "") (λ r. refl)
      other sys.db.instances

put_info-IsQuiet :
    (d : Domain) (rest : M (List VmInfo)) (r : Result ℕ)
    → IsQuiet rest
    → IsQuiet (put_info d rest r)
put_info-IsQuiet d rest (err m) q = q
put_info-IsQuiet d rest (ok state) q =
    bind-IsQuiet rest (λ infos. pure (info d state ∷ infos)) q (λ infos host past. (refl, refl))

infos_of-IsQuiet : (ds : List Domain) → IsQuiet (infos_of ds)
unfolding infos_of
infos_of-IsQuiet [] = λ host past. (refl, refl)
infos_of-IsQuiet (d ∷ ds) =
    bind-IsQuiet (attempt (domain_state d.name)) (λ r. put_info d (infos_of ds) r)
      (attempt-IsQuiet (domain_state d.name)
        (λ host past. (refl, ended-calm (host.state past d.name))))
      (λ r. put_info-IsQuiet d (infos_of ds) r (infos_of-IsQuiet ds))

list_vm_infos-IsQuiet : IsQuiet list_vm_infos
unfolding list_vm_infos
list_vm_infos-IsQuiet =
    bind-IsQuiet (blame "list domains" all_domains) infos_of
      (blame-IsQuiet "list domains" all_domains
        (λ host past. (refl, ended-calm (host.domains past))))
      infos_of-IsQuiet

-- The reports about some machines, in their order.
deliver : Env → List VmInfo → System → System
deliver env [] sys = sys
deliver env (vm ∷ vms) sys = deliver env vms (report_vm_status env vm.id vm.status "" sys)

told-report_all :
    (env : Env) (host : Host) (sys : System) (vms : List VmInfo) (past : Past)
    → told env (reports (report_all vms host past).1) sys
      ≡ deliver env vms (told env (reports past) sys)
unfolding told report_all deliver
told-report_all env host sys [] past = refl
told-report_all env host sys (vm ∷ vms) past =
    told-report_all env host sys vms (report vm.id vm.status "" ∷ past)

-- What was reported of all machines has arrived.
arrived :
    (env : Env) (host : Host) (sys : System) (vms : List VmInfo) (q : Past)
    → list_vm_infos host (sleep 5 ∷ []) ≡ (returned vms, q)
    → told env (reports (reconcile true host []).1) sys ≡ deliver env vms sys
unfolding reconcile told
arrived env host sys vms q listed =
    rw (reconcile, listed)
      (told-report_all env host sys vms q
        ∙ ap (λ rs. deliver env vms (told env rs sys))
            (sym (ap (λ p. reports p.1) listed) ∙ (list_vm_infos-IsQuiet host (sleep 5 ∷ [])).0))

abbrev Others : String → List VmInfo → Type 0
Others id vms = All (λ (vm : VmInfo). (vm.id == id) ≡ false) vms

row_kept :
    (env : Env) (id : String) (vms : List VmInfo) (sys : System)
    → Others id vms
    → Rows.get id (deliver env vms sys).db ≡ Rows.get id sys.db
unfolding deliver
row_kept env id [] sys h = refl
row_kept env id (vm ∷ vms) sys (other, h) =
    row_kept env id vms (report_vm_status env vm.id vm.status "" sys) h
    ∙ other_row env vm id sys other

-- The agent starts with libvirt, and its reports arrive. An instance whose machine is not in the list is
-- left as it is, so that one that was pending stays pending.
pub absent_unchanged :
    (env : Env) (host : Host) (sys : System) (id : String) (vms : List VmInfo) (q : Past)
    → list_vm_infos host (sleep 5 ∷ []) ≡ (returned vms, q)
    → All (λ (v : VmInfo). (v.id == id) ≡ false) vms
    → Rows.get id (told env (reports (reconcile true host []).1) sys).db ≡ Rows.get id sys.db
absent_unchanged env host sys id vms q listed absent =
    rw (arrived env host sys vms q listed) (row_kept env id vms sys absent)
