-- ===== src/Demo/Instances/Booting.antt =====
-- frontend/src/pages/Instances.tsx: the start of a new machine of the live demo.
use mathlib.Core.List.{Memᴰ}
use rig_stack.Prelude.{
  ℕ, String, ◌==◌, false, not, List, [], ◌∷◌, ◌++◌, All, ◌≡◌, ◌⊎◌, refl, sym, ap, Bool-cases,
  Option-cases, inl, inr, get_elem?, truthy, eq_iff, subst,
}
use rig_stack.Prelude.Text.{trim}
use rig_stack.Runtime.{World, Reach}
use rig_stack.Runtime.Invariant.{Steps_inv}
use rig_stack.Demo.Types.{Instance}
use rig_stack.Demo.Instances.{
  State, Task, Reply, boot, Event, search_typed, filter_chosen, modal_opened, modal_closed,
  name_typed, os_chosen, flavor_chosen, disk_typed, submitted, power, removed, flavors, toggled,
  booted, delete_vm, create_vm, handle, resume, page,
}
use rig_stack.Demo.Instances.Power.{change_rows-All, kept-All}

-- A machine that waits has its timer.
abbrev pub HasTimer : List Task → Instance → Type 0
HasTimer tasks v = ((v.status == "pending") ≡ false) ⊎ Memᴰ (boot v.id) tasks

mem-left : {T : Type 0} (t : T) (xs ys : List T) → Memᴰ t xs → Memᴰ t (xs ++ ys)
mem-left t [] ys m = elim m [ ]
mem-left t (x ∷ xs) ys (Memᴰ.head e) = Memᴰ.head e
mem-left t (x ∷ xs) ys (Memᴰ.tail m) = Memᴰ.tail (mem-left t xs ys m)

mem-right : {T : Type 0} (t : T) (xs ys : List T) → Memᴰ t ys → Memᴰ t (xs ++ ys)
mem-right t [] ys m = m
mem-right t (x ∷ xs) ys m = Memᴰ.tail (mem-right t xs ys m)

id_of : Task → String
id_of (boot id) = id

-- The timers of the other machines go on when one has come.
mem-others :
    (id other : String) (before behind : List Task)
    → (other == id) ≡ false
    → Memᴰ (boot other) (before ++ boot id ∷ behind)
    → Memᴰ (boot other) (before ++ behind)
unfolding id_of
mem-others id other [] behind ne (Memᴰ.head e) = let same = (eq_iff other id).1 (ap id_of e) in cc
mem-others id other [] behind ne (Memᴰ.tail m) = m
mem-others id other (x ∷ before) behind ne (Memᴰ.head e) = Memᴰ.head e
mem-others id other (x ∷ before) behind ne (Memᴰ.tail m) =
    Memᴰ.tail (mem-others id other before behind ne m)

toggled-HasTimer : (tasks : List Task) (v : Instance) (n : ℕ) → HasTimer tasks (toggled v n)
toggled-HasTimer tasks v n = elim (Bool-cases (v.status == "running")) [
  | inl on ↦ rw on (inl refl)
  | inr off ↦ rw off (inl refl)
]

weaken : (tasks more : List Task) (v : Instance) → HasTimer tasks v → HasTimer (tasks ++ more) v
weaken tasks more v (inl e) = inl e
weaken tasks more v (inr m) = inr (mem-left (boot v.id) tasks more m)

weakened :
    (tasks more : List Task) (vs : List Instance)
    → All (HasTimer tasks) vs
    → All (HasTimer (tasks ++ more)) vs
weakened tasks more [] h = tt
weakened tasks more (v ∷ vs) (own, h) = (weaken tasks more v own, weakened tasks more vs h)

abbrev AllTimed : World State Task → Type 0
AllTimed w = All (HasTimer w.tasks) w.state.vms

create_vm-AllTimed :
    (tasks : List Task) (s : State) (now date : String)
    → All (HasTimer tasks) s.vms
    → All (HasTimer (tasks ++ (create_vm s now date).tasks)) (create_vm s now date).state.vms
unfolding create_vm
create_vm-AllTimed tasks s now date h = elim (Bool-cases (truthy (trim s.form.name))) [
  | inr e ↦ rw (create_vm, e) (weakened tasks [] s.vms h)
  | inl e ↦ elim (Option-cases (get_elem? flavors s.form.flavor)) [
    | inl g ↦ rw (create_vm, e, g) (weakened tasks [] s.vms h)
    | inr (flavor, g) ↦
        rw (create_vm, e, g)
          (
            inr (mem-right (boot now) tasks (boot now ∷ []) (Memᴰ.head refl)),
            weakened tasks (boot now ∷ []) s.vms h,
          )
  ]
]

handle-AllTimed :
    (tasks : List Task) (s : State) (e : Event)
    → All (HasTimer tasks) s.vms
    → All (HasTimer (tasks ++ (handle s e).tasks)) (handle s e).state.vms
unfolding handle delete_vm
handle-AllTimed tasks s (search_typed t) h = weakened tasks [] s.vms h
handle-AllTimed tasks s (filter_chosen t) h = weakened tasks [] s.vms h
handle-AllTimed tasks s modal_opened h = weakened tasks [] s.vms h
handle-AllTimed tasks s modal_closed h = weakened tasks [] s.vms h
handle-AllTimed tasks s (name_typed t) h = weakened tasks [] s.vms h
handle-AllTimed tasks s (os_chosen t) h = weakened tasks [] s.vms h
handle-AllTimed tasks s (flavor_chosen i) h = weakened tasks [] s.vms h
handle-AllTimed tasks s (disk_typed t) h = weakened tasks [] s.vms h
handle-AllTimed tasks s (submitted now date) h = create_vm-AllTimed tasks s now date h
handle-AllTimed tasks s (power id draw) h =
    change_rows-All (HasTimer tasks) (HasTimer (tasks ++ [])) id toggled draw s.vms
      (λ v n own. toggled-HasTimer (tasks ++ []) v n) (λ v e own. weaken tasks [] v own) h
handle-AllTimed tasks s (removed id) h =
    weakened tasks [] _ (kept-All (HasTimer tasks) (λ v. not (v.id == id)) s.vms h)

resume-AllTimed :
    (before behind : List Task) (s : State) (t : Task) (draw : Reply t)
    → All (HasTimer (before ++ t ∷ behind)) s.vms
    → All (HasTimer ((before ++ behind) ++ (resume s t draw).tasks)) (resume s t draw).state.vms
unfolding resume
resume-AllTimed before behind s (boot id) draw h = weakened (before ++ behind) [] _ (
    change_rows-All (HasTimer (before ++ boot id ∷ behind)) (HasTimer (before ++ behind)) id booted
      draw s.vms (λ v n own. inl refl) (λ v ne own. remains v ne own) h)
  where
    remains :
        (v : Instance)
        → (v.id == id) ≡ false
        → HasTimer (before ++ boot id ∷ behind) v
        → HasTimer (before ++ behind) v
    remains v ne (inl e) = inl e
    remains v ne (inr m) = inr (mem-others id v.id before behind ne m)

at_member : (P : Instance → Type 0) (v : Instance) (vs : List Instance) → All P vs → Memᴰ v vs → P v
at_member P v (x ∷ vs) (own, h) (Memᴰ.head e) = subst P (sym e) own
at_member P v (x ∷ vs) (own, h) (Memᴰ.tail m) = at_member P v vs h m
at_member P v [] h m = elim m [ ]

trivially : (vs : List Instance) → All (λ v. Unit {0}) vs
trivially [] = tt
trivially (v ∷ vs) = (tt, trivially vs)

module _ (lower : String → String) where
  -- In every reachable world of the demo page of instances a machine of the list that is pending
  -- has its timer among those that wait; and when that timer comes, whatever is drawn, each row of
  -- the machine's id is running.
  pub pending_boots :
      {w : World State Task} (v : Instance)
      → Reach (page lower) w
      → Memᴰ v w.state.vms
      → v.status ≡ "pending"
      → Memᴰ (boot v.id) w.tasks
        × ((draw : ℕ → ℕ)
            → All
                (λ u. ((u.id == v.id) ≡ false) ⊎ (u.status ≡ "running"))
                (resume w.state (boot v.id) draw).state.vms)
  unfolding resume
  pending_boots {w} v r there waits = (
    timed (at_member (HasTimer w.tasks) v w.state.vms all_timed there),
    λ draw.
        change_rows-All (λ u. Unit {0}) (λ u. ((u.id == v.id) ≡ false) ⊎ (u.status ≡ "running"))
          v.id booted draw w.state.vms (λ u n own. inr refl) (λ u ne own. inl ne)
          (trivially w.state.vms),
  )
    where
      all_timed : AllTimed w
      all_timed =
          Steps_inv (page lower) AllTimed (λ w e on h. handle-AllTimed w.tasks w.state e h)
            (λ w before behind t draw at h.
              resume-AllTimed before behind w.state t draw (rw (← at) h))
            r (inl refl, (inl refl, (inl refl, (inl refl, (inl refl, (inl refl, tt))))))

      timed : HasTimer w.tasks v → Memᴰ (boot v.id) w.tasks
      timed (inl e) = cc (rw waits at e)
      timed (inr m) = m
