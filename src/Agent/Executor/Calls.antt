-- ===== src/Agent/Executor/Calls.antt =====
-- agent/internal/{network,libvirt,storage}: the functions that the executor calls report nothing, and come
-- to a result or to an error.
use rig_stack.Prelude.{ℕ, String, refl, Option-cases, inl, inr, ◌&&◌, truthy}
use rig_stack.Agent.Host.{pure, draw}
use rig_stack.Agent.Domain.{VmSpec, random_mac}
use rig_stack.Agent.Network.{
  subnet, subnet_info, create_bridge, add_masquerade, ensure_bridge, shown,
}
use rig_stack.Agent.Libvirt.{create_vm, start_vm, get_domain}
use rig_stack.Agent.Storage.{
  VmPaths, CloudInit, hash_password, with_hash, create_disk, create_cloud_init_iso, provision,
  paths_for,
}
use rig_stack.Agent.Executor.{Executor, ensure_for}
use rig_stack.Agent.Executor.Quiet.{
  IsQuiet, ended-calm, bind-IsQuiet, recover-IsQuiet, attempt-IsQuiet, blame-IsQuiet, if-IsQuiet,
  ignore-IsQuiet, perform-IsQuiet, must-IsQuiet, done-IsQuiet, after-IsQuiet,
}

create_bridge-IsQuiet :
    (vpc_id gateway : String) (prefix : ℕ) → IsQuiet (create_bridge vpc_id gateway prefix)
unfolding create_bridge
create_bridge-IsQuiet vpc_id gateway prefix =
    after-IsQuiet _ _ (must-IsQuiet _ (λ p. refl))
      (after-IsQuiet _ _ (must-IsQuiet _ (λ p. refl)) (must-IsQuiet _ (λ p. refl)))

add_masquerade-IsQuiet : (cidr uplink : String) → IsQuiet (add_masquerade cidr uplink)
unfolding add_masquerade
add_masquerade-IsQuiet cidr uplink =
    recover-IsQuiet _ _ _ (perform-IsQuiet _ (λ p. refl)) (λ there. done-IsQuiet)
      (λ m. must-IsQuiet _ (λ p. refl))

subnet-IsQuiet : (cidr : String) → IsQuiet (subnet cidr)
subnet-IsQuiet cidr = λ host past. (refl, ended-calm (subnet_info host cidr))

ensure_bridge-IsQuiet : (uplink vpc_id cidr : String) → IsQuiet (ensure_bridge uplink vpc_id cidr)
unfolding ensure_bridge
ensure_bridge-IsQuiet uplink vpc_id cidr =
    bind-IsQuiet _ _ (attempt-IsQuiet _ (perform-IsQuiet _ (λ p. refl))) (λ r.
      if-IsQuiet (shown r) _ _ done-IsQuiet (
        bind-IsQuiet _ _ (subnet-IsQuiet cidr) (λ (gateway, prefix).
          after-IsQuiet _ _ (blame-IsQuiet _ _ (create_bridge-IsQuiet vpc_id gateway prefix)) (
            after-IsQuiet _ _ (ignore-IsQuiet _ (perform-IsQuiet _ (λ p. refl)))
              (ignore-IsQuiet _ (add_masquerade-IsQuiet cidr uplink))))))

pub ensure_for-IsQuiet : (e : Executor) (vpc_id cidr : String) → IsQuiet (ensure_for e vpc_id cidr)
unfolding ensure_for
ensure_for-IsQuiet e vpc_id cidr = elim (Option-cases e.net) [
  | inl h ↦ rw (ensure_for, h) done-IsQuiet
  | inr (uplink, h) ↦
      rw (ensure_for, h)
        (if-IsQuiet (truthy vpc_id && truthy cidr) _ _ (ensure_bridge-IsQuiet uplink vpc_id cidr)
          done-IsQuiet)
]

pub random_mac-IsQuiet : IsQuiet random_mac
unfolding random_mac
random_mac-IsQuiet =
    bind-IsQuiet draw _ (λ host past. (refl, ended-calm (host.bytes past)))
      (λ (a, b, c). λ h p. (refl, refl))

hash_password-IsQuiet : (plain : String) → IsQuiet (hash_password plain)
unfolding hash_password
hash_password-IsQuiet plain =
    bind-IsQuiet _ _ (blame-IsQuiet _ _ (perform-IsQuiet _ (λ p. refl)))
      (λ output. λ h p. (refl, refl))

with_hash-IsQuiet : (ci : CloudInit) → IsQuiet (with_hash ci)
unfolding with_hash
with_hash-IsQuiet ci =
    if-IsQuiet (truthy ci.password) _ _
      (recover-IsQuiet _ _ _ (hash_password-IsQuiet ci.password) (λ h p q. (refl, refl))
        (λ m p q. (refl, refl)))
      (λ p q. (refl, refl))

create_cloud_init_iso-IsQuiet :
    (paths : VmPaths) (ci : CloudInit) → IsQuiet (create_cloud_init_iso paths ci)
unfolding create_cloud_init_iso
create_cloud_init_iso-IsQuiet paths ci = bind-IsQuiet _ _ (with_hash-IsQuiet ci) (λ hashed.
    after-IsQuiet _ _ (blame-IsQuiet _ _ (must-IsQuiet _ (λ p. refl))) (
      after-IsQuiet _ _ (blame-IsQuiet _ _ (must-IsQuiet _ (λ p. refl))) (
        after-IsQuiet _ _ (blame-IsQuiet _ _ (must-IsQuiet _ (λ p. refl))) (
          recover-IsQuiet _ _ _ (must-IsQuiet _ (λ p. refl)) (λ made. done-IsQuiet)
            (λ m. blame-IsQuiet _ _ (must-IsQuiet _ (λ p. refl)))))))

pub provision-IsQuiet :
    (vm_id base : String) (disk_gb : ℕ) (ci : CloudInit) → IsQuiet (provision vm_id base disk_gb ci)
unfolding provision create_disk
provision-IsQuiet vm_id base disk_gb ci =
    after-IsQuiet _ _ (blame-IsQuiet _ _ (must-IsQuiet _ (λ p. refl))) (
      after-IsQuiet _ _ (blame-IsQuiet _ _ (must-IsQuiet _ (λ p. refl))) (
        after-IsQuiet _ (pure (paths_for vm_id))
          (create_cloud_init_iso-IsQuiet (paths_for vm_id) ci) (λ h p. (refl, refl))))

pub create_vm-IsQuiet : (spec : VmSpec) → IsQuiet (create_vm spec)
unfolding create_vm
create_vm-IsQuiet spec =
    bind-IsQuiet _ _ (blame-IsQuiet _ _ (perform-IsQuiet _ (λ p. refl)))
      (λ dom. blame-IsQuiet _ _ (must-IsQuiet _ (λ p. refl)))

pub start_vm-IsQuiet : (name : String) → IsQuiet (start_vm name)
unfolding start_vm get_domain
start_vm-IsQuiet name =
    bind-IsQuiet _ _ (blame-IsQuiet _ _ (perform-IsQuiet _ (λ p. refl)))
      (λ dom. blame-IsQuiet _ _ (must-IsQuiet _ (λ p. refl)))
