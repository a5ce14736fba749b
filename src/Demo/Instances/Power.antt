-- ===== src/Demo/Instances/Power.antt =====
-- frontend/src/pages/Instances.tsx: the addresses of the machines of the live demo.
use rig_stack.Prelude.{
  ℕ, suc, ◌<◌, ◌+◌, ◌%◌, String, ◌==◌, Bool, true, false, not, List, [], ◌∷◌, All, ◌≡◌, refl, sym,
  ap, ◌∙◌, arith, Bool-cases, Option-cases, inl, inr, keep, get_elem?, truthy, and-true, ltb→lt,
  eq-false,
}
use Prim.Native.Char.{code}
use text.Mathlib.TextLemmas.{cons-append}
use rig_stack.Prelude.Text.{trim, decimal}
use rig_stack.Runtime.{World, Reach}
use rig_stack.Runtime.Invariant.{Steps_inv}
use rig_stack.Demo.Types.{Instance}
use rig_stack.Demo.Instances.{
  State, Task, Reply, boot, Event, search_typed, filter_chosen, modal_opened, modal_closed,
  name_typed, os_chosen, flavor_chosen, disk_typed, submitted, power, removed, flavors, random_ip,
  no_ip, change_rows, toggled, booted, delete_vm, create_vm, handle, resume, enabled, page,
}

first_code : String → ℕ
first_code String.[] = 0
first_code (String.◌∷◌ c s) = code c

random_ip-no_ip : (draw : ℕ) → (random_ip draw == no_ip) ≡ false
unfolding first_code
random_ip-no_ip draw = eq-false (random_ip draw) no_ip (λ e.
    let same = ap first_code (sym (cons-append "1" "92.168.1." (decimal (draw % 200 + 10))) ∙ e) in
    omega arith)

-- A machine has an address exactly if it is running.
abbrev pub IsAddressed : Instance → Type 0
IsAddressed v = (v.status == "running") ≡ not (v.ip == no_ip)

toggled-IsAddressed : (v : Instance) (draw : ℕ) → IsAddressed (toggled v draw)
toggled-IsAddressed v draw = elim (Bool-cases (v.status == "running")) [
  | inl on ↦ rw on
  | inr off ↦ rw (off, random_ip-no_ip draw)
]

booted-IsAddressed : (v : Instance) (draw : ℕ) → IsAddressed (booted v draw)
booted-IsAddressed v draw = rw (random_ip-no_ip draw)

-- What a change of the rows of an id does to a property of the rows.
pub change_rows-All :
    (P Q : Instance → Type 0) (id : String) (change : Instance → ℕ → Instance) (draw : ℕ → ℕ)
    (vs : List Instance)
    → ((v : Instance) (n : ℕ) → P v → Q (change v n))
    → ((v : Instance) → (v.id == id) ≡ false → P v → Q v)
    → All P vs
    → All Q (change_rows id change draw vs)
unfolding change_rows
change_rows-All P Q id change draw [] changed other h = tt
change_rows-All P Q id change draw (v ∷ vs) changed other (own, h) =
    elim (Bool-cases (v.id == id)) [
      | inl e ↦ rw e (
        changed v (draw 0) own,
        change_rows-All P Q id change (λ n. draw (suc n)) vs changed other h,
      )
      | inr e ↦ rw e (other v e own, change_rows-All P Q id change draw vs changed other h)
    ]

module _ (P : Instance → Type 0) where
  pub kept-All : (p : Instance → Bool) (vs : List Instance) → All P vs → All P (keep p vs)
  kept-All p [] h = tt
  kept-All p (v ∷ vs) (own, h) = elim (Bool-cases (p v)) [
    | inl e ↦ rw e (own, kept-All p vs h)
    | inr e ↦ rw e (kept-All p vs h)
  ]

abbrev pub IsSound : State → Type 0
IsSound s = All IsAddressed s.vms × (s.form.flavor < 3)

create_vm-IsSound :
    (s : State) (now date : String) → IsSound s → IsSound (create_vm s now date).state
unfolding create_vm
create_vm-IsSound s now date (h, f) = elim (Bool-cases (truthy (trim s.form.name))) [
  | inr e ↦ rw (create_vm, e) (h, f)
  | inl e ↦ elim (Option-cases (get_elem? flavors s.form.flavor)) [
    | inl g ↦ rw (create_vm, e, g) (h, f)
    | inr (flavor, g) ↦ rw (create_vm, e, g) ((refl, h), omega arith)
  ]
]

module _ (lower : String → String) where
  handle-IsSound :
      (s : State) (e : Event) → enabled lower s e ≡ true → IsSound s → IsSound (handle s e).state
  unfolding handle enabled delete_vm
  handle-IsSound s (search_typed t) on h = h
  handle-IsSound s (filter_chosen t) on h = h
  handle-IsSound s modal_opened on h = h
  handle-IsSound s modal_closed on h = h
  handle-IsSound s (name_typed t) on h = h
  handle-IsSound s (os_chosen t) on h = h
  handle-IsSound s (flavor_chosen i) on (h, f) = (h, ltb→lt i 3 (and-true _ _ on).1)
  handle-IsSound s (disk_typed t) on h = h
  handle-IsSound s (submitted now date) on h = create_vm-IsSound s now date h
  handle-IsSound s (power id draw) on (h, f) = (
    change_rows-All IsAddressed IsAddressed id toggled draw s.vms
        (λ v n own. toggled-IsAddressed v n) (λ v e own. own) h,
    f,
  )
  handle-IsSound s (removed id) on (h, f) =
      (kept-All IsAddressed (λ v. not (v.id == id)) s.vms h, f)

  resume-IsSound :
      (s : State) (t : Task) (draw : Reply t) → IsSound s → IsSound (resume s t draw).state
  unfolding resume
  resume-IsSound s (boot id) draw (h, f) = (
    change_rows-All IsAddressed IsAddressed id booted draw s.vms (λ v n own. booted-IsAddressed v n)
        (λ v e own. own) h,
    f,
  )

  -- In every reachable world of the demo page of instances each machine has an address exactly if
  -- it is running, whatever is typed, clicked and drawn and however the timers come; and the flavor
  -- of the form is one of the three, so that a creation finds it.
  pub demo-IsSound : {w : World State Task} → Reach (page lower) w → IsSound w.state
  demo-IsSound r =
      Steps_inv (page lower) (λ w. IsSound w.state) (λ w e on h. handle-IsSound w.state e on h)
        (λ w before behind t draw at h. resume-IsSound w.state t draw h) r
        ((refl, (refl, (refl, (refl, (refl, (refl, tt)))))), omega arith)
