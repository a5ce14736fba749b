-- ===== src/Agent/Reconcile.antt =====
-- agent/cmd/main.go and agent/internal/libvirt/manager.go: what the agent reports when it starts. That
-- it is ended while it waits is left out.
pub mod Restored
use rig_stack.Prelude.{ℕ, zero, suc, String, ◌<>◌, Bool, true, false, List, [], ◌∷◌, take}
use rig_stack.Client.Http.{Result, ok, err}
use rig_stack.Agent.Host.{
  Domain, M, ◌>>=◌, ◌>>◌, pure, attempt, recover, blame, domain_state, all_domains, pass, tell,
}
use rig_stack.Agent.Domain.{hex_byte}
use rig_stack.Agent.Libvirt.{domain_state_string}

-- `VMInfo`.
pub record VmInfo : Type 0 where
  pub id : String
  pub name : String
  pub status : String

-- `%x` of some bytes, which has all digits of each, and `u[from:to]`.
unfoldable pub hex : List ℕ → String
unfolding hex_byte
hex [] = ""
hex (b ∷ bs) = hex_byte b <> hex bs

abbrev behind : ℕ → List ℕ → List ℕ
behind zero u = u
behind (suc n) [] = []
behind (suc n) (b ∷ bs) = behind n bs

unfoldable pub uuid_text : List ℕ → String
unfolding hex
uuid_text u =
    hex (take 4 u)
    <> "-"
    <> hex (take 2 (behind 4 u))
    <> "-"
    <> hex (take 2 (behind 6 u))
    <> "-"
    <> hex (take 2 (behind 8 u))
    <> "-"
    <> hex (take 6 (behind 10 u))

abbrev pub info : Domain → ℕ → VmInfo
info d state = record { id = uuid_text d.uuid; name = d.name; status = domain_state_string state }

-- One round of the loop of `ListVMInfos`, which passes over a domain whose state is not read.
abbrev pub put_info : Domain → M (List VmInfo) → Result ℕ → M (List VmInfo)
put_info d rest (err m) = rest
put_info d rest (ok state) = rest >>= λ infos. pure (info d state ∷ infos)

unfoldable pub infos_of : List Domain → M (List VmInfo)
infos_of [] = pure []
infos_of (d ∷ ds) =
    let rest = infos_of ds in attempt (domain_state d.name) >>= λ r. put_info d rest r

-- `ListVMInfos`.
unfoldable pub list_vm_infos : M (List VmInfo)
unfolding infos_of
list_vm_infos = do ds ← blame "list domains" all_domains; infos_of ds

-- The loop of `reconcileVMs`.
unfoldable pub report_all : List VmInfo → M (Unit {0})
report_all [] = pure tt
report_all (vm ∷ vms) = tell vm.id vm.status "" >> report_all vms

-- `reconcileVMs`, with or without libvirt.
unfoldable pub reconcile : Bool → M (Unit {0})
unfolding list_vm_infos report_all
reconcile false = pure tt
reconcile true = pass 5 >> recover list_vm_infos report_all (λ m. pure tt)
