-- ===== src/Agent/Metrics/Within.antt =====
-- agent/cmd/main.go: the loads that the agent sends are within bounds.
use native.Mathlib.Nat.{div-lt_iff_lt-mul, mod-eq_of_lt}
use rig_stack.Prelude.{
  ℕ, ◌*◌, ◌/◌, ◌%◌, ◌^◌, ◌≤◌, ◌<◌, ◌≡◌, refl, true, arith, length, List, ◌∷◌, ltb, if◌then◌else◌,
}
use rig_stack.Client.Http.{ok}
use rig_stack.Controller.Store.Nodes.{Load}
use rig_stack.Agent.Host.{Domain, Past, Host, returned, list_active, ask_free, ask_info}
use rig_stack.Agent.Metrics.{get_node_stats, ram_free_pct, load_of, collect_stats}

share : (total free : ℕ) → 1 ≤ total → free ≤ total → free * 100 / total ≤ 100
share total free some fits =
    let below = (div-lt_iff_lt-mul {k = total} {x = free * 100} {y = 101} some).1 (omega arith) in
    omega (arith, below)

-- The conversions change nothing.
share_kept :
    (total free : ℕ)
    → 1 ≤ total
    → free ≤ total
    → total < 2 ^ 57
    → (if ltb 0 total then free * 100 % 2 ^ 64 / total % 2 ^ 32 else 0) ≡ free * 100 / total
share_kept total free some fits small =
    let le = share total free some fits in
    let positive : ltb 0 total ≡ true = ground arith in
    let kept : free * 100 % 2 ^ 64 ≡ free * 100 = mod-eq_of_lt (omega arith) in
    rw (positive, kept) (mod-eq_of_lt (omega (arith, le)))

-- With libvirt, on a node that has memory, of which as much is free as there is at most, and less than
-- 2^57 bytes, and fewer than 2^31 active machines: the agent sends the free memory and the number of
-- active machines as they are, and a percentage that is one.
pub load_within :
    (host : Host) (past : Past) (mem_kb cpus free : ℕ) (ds : List Domain)
    → host.info past ≡ ok (mem_kb, cpus)
    → host.free_memory (ask_info ∷ past) ≡ ok free
    → host.active (ask_free ∷ ask_info ∷ past) ≡ ok ds
    → 1 ≤ mem_kb
    → free ≤ mem_kb * 1024
    → mem_kb * 1024 < 2 ^ 57
    → length ds < 2 ^ 31
    → (load : Load) × (collect_stats true host past
        ≡ (returned load, list_active ∷ ask_free ∷ ask_info ∷ past))
      × (load.cpu_free ≡ free * 100 / (mem_kb * 1024))
      × (load.cpu_free ≤ 100)
      × (load.ram_free ≡ free)
      × (load.vm_count ≡ length ds)
unfolding collect_stats get_node_stats ram_free_pct
load_within host past mem_kb cpus free ds hi hf ha some fits small few =
    let total : mem_kb * 1024 % 2 ^ 64 ≡ mem_kb * 1024 = mod-eq_of_lt (omega arith) in
    let kept : free % 2 ^ 64 ≡ free = mod-eq_of_lt (omega arith) in
    let pct : ram_free_pct (record {
      cpu_cores = cpus % 2 ^ 32;
      ram_total = mem_kb * 1024 % 2 ^ 64;
      ram_free = free % 2 ^ 64;
      vm_running = length ds;
    })
        ≡ free * 100 / (mem_kb * 1024) =
      rw (ram_free_pct, total, kept) (share_kept (mem_kb * 1024) free (omega arith) fits small) in
    (
      load_of (record {
        cpu_cores = cpus % 2 ^ 32;
        ram_total = mem_kb * 1024 % 2 ^ 64;
        ram_free = free % 2 ^ 64;
        vm_running = length ds;
      }),
      rw (collect_stats, get_node_stats, hi, hf, ha) refl,
      pct,
      rw pct (share (mem_kb * 1024) free (omega arith) fits),
      omega arith,
      omega arith,
    )
