-- ===== src/Network/Requests.antt =====
-- What the page `RealNetwork` has in flight and what it sends.
use rig_stack.Prelude.{
  ℕ, ◌+◌, ◌-◌, ◌≤◌, String, Bool, true, false, Option, none, some, ◌≡◌, ◌≢◌, ◌⊎◌, ◌++◌, refl, arith,
  flag, tally, tally-append, truthy→ne, All, All-append, inl, inr, Bool-cases, get_elem?,
}
use rig_stack.Prelude.Text.{trim}
use rig_stack.Client.Http.{Request, ok, err, post}
use rig_stack.Client.Types.{ApiVpc}
use rig_stack.Client.Endpoints.{vpcs_list, vpcs_create, vpcs_delete}
use rig_stack.Runtime.{World, Reach}
use rig_stack.Runtime.Invariant.{Steps_inv, tally-remove}
use rig_stack.ViewMode.{Storage}
use rig_stack.Network.{
  State, Form, Event, refresh, submit, remove, Task, loaded, created, deleted, Reply, page, enabled,
  handle, resume, load, initial, handle_create, is_incomplete, remove_vpc,
}

abbrev pub creates : Task → ℕ
creates created = 1
creates _ = 0

abbrev pub loads : Task → ℕ
loads loaded = 1
loads _ = 0

-- The flags of the page agree with what waits: it is creating exactly if one creation is in
-- flight, there is no second one, and it says that it loads only while a load is in flight.
abbrev pub IsTracked : World State Task → Type 0
IsTracked w =
    (flag w.state.creating ≡ tally creates w.tasks) × (flag w.state.loading ≤ tally loads w.tasks)

handle-creates :
    (s : State) (e : Event)
    → enabled s e ≡ true
    → flag (handle s e).state.creating ≡ flag s.creating + tally creates (handle s e).tasks
unfolding enabled handle
handle-creates s e on = ground arith

handle-loads :
    (s : State) (e : Event)
    → flag (handle s e).state.loading ≤ flag s.loading + tally loads (handle s e).tasks
unfolding handle
handle-loads s e = ground arith

resume-creates :
    (s : State) (t : Task) (r : Reply t)
    → creates t ≤ flag s.creating
    → flag (resume s t r).state.creating + creates t
      ≡ flag s.creating + tally creates (resume s t r).tasks
unfolding resume
resume-creates s loaded r h = ground arith
resume-creates s _ r h = ground arith

resume-loads :
    (s : State) (t : Task) (r : Reply t)
    → flag (resume s t r).state.loading
      ≤ flag s.loading - loads t + tally loads (resume s t r).tasks
unfolding resume
resume-loads s loaded r = ground arith
resume-loads s _ r = ground arith

-- In every reachable world the flags of the page are those of its requests.
pub page-IsTracked :
    (storage : Storage) {w : World State Task} → Reach (page storage) w → IsTracked w
unfolding load initial
page-IsTracked storage r =
    Steps_inv (page storage) IsTracked
      (λ w e on h. omega (
        arith,
        handle-creates w.state e on,
        handle-loads w.state e,
        tally-append creates w.tasks (handle w.state e).tasks,
        tally-append loads w.tasks (handle w.state e).tasks,
      ))
      (λ w before behind t y at h. omega (
        arith,
        tally-remove creates w.tasks before behind t at,
        tally-remove loads w.tasks before behind t at,
        resume-creates w.state t y,
        resume-loads w.state t y,
        tally-append creates (before ++ behind) (resume w.state t y).tasks,
        tally-append loads (before ++ behind) (resume w.state t y).tasks,
      ))
      r (omega arith)

-- A request is no post, or the creation of a VPC whose name and range are trimmed and not empty.
abbrev pub IsComplete : Request → Type 0
IsComplete r =
    (r.method ≢ post)
    ⊎ ((name : String) × (cidr : String) × (r ≡ vpcs_create (trim name) (trim cidr))
        × (trim name ≢ "")
        × (trim cidr ≢ ""))

complete-parts : (f : Form) → is_incomplete f ≡ false → (trim f.name ≢ "") × (trim f.cidr ≢ "")
complete-parts f h =
    (truthy→ne (trim f.name) (ground arith), truthy→ne (trim f.cidr) (ground arith))

handle_create-IsComplete : (s : State) → All IsComplete (handle_create s).sent
unfolding handle_create vpcs_create
handle_create-IsComplete s = elim (Bool-cases (is_incomplete s.form)) [
  | inl missing ↦ rw missing tt
  | inr filled ↦
      let (named, ranged) = complete-parts s.form filled in
      rw filled (inr (s.form.name, s.form.cidr, refl, named, ranged), tt)
]

remove_vpc-IsComplete :
    (v : Option ApiVpc) (agreed : Bool) (s : State) → All IsComplete (remove_vpc v agreed s).sent
unfolding vpcs_delete
remove_vpc-IsComplete none agreed s = tt
remove_vpc-IsComplete (some v) false s = tt
remove_vpc-IsComplete (some v) true s = (inl (λ e. cc), tt)

load-IsComplete : (s : State) → All IsComplete (load s).sent
unfolding load vpcs_list
load-IsComplete s = (inl (λ e. cc), tt)

handle-IsComplete : (s : State) (e : Event) → All IsComplete (handle s e).sent
unfolding handle
handle-IsComplete s refresh = load-IsComplete s
handle-IsComplete s submit = handle_create-IsComplete s
handle-IsComplete s (remove k agreed) = remove_vpc-IsComplete (get_elem? s.vpcs k) agreed s
handle-IsComplete s _ = tt

resume-IsComplete : (s : State) (t : Task) (r : Reply t) → All IsComplete (resume s t r).sent
unfolding resume
resume-IsComplete s loaded (ok v) = tt
resume-IsComplete s loaded (err m) = tt
resume-IsComplete s created (ok v) = load-IsComplete s
resume-IsComplete s created (err m) = tt
resume-IsComplete s deleted r = load-IsComplete s

-- Every post that the page sends, in any run, creates a VPC with a trimmed name and a trimmed range
-- of addresses, neither of which is empty.
pub posts-IsComplete :
    (storage : Storage) {w : World State Task} → Reach (page storage) w → All IsComplete w.sent
unfolding load initial
posts-IsComplete storage r =
    Steps_inv (page storage) (λ w. All IsComplete w.sent)
      (λ w e on h.
        All-append IsComplete w.sent (handle w.state e).sent h (handle-IsComplete w.state e))
      (λ w before behind t y at h.
        All-append IsComplete w.sent (resume w.state t y).sent h (resume-IsComplete w.state t y))
      r (load-IsComplete (initial storage))
