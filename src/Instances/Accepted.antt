-- ===== src/Instances/Accepted.antt =====
-- What the page `RealInstances` posts, held against the controller's checks.
use rig_stack.Prelude.{
  ℕ, suc, zero, String, ◌==◌, true, false, Option, none, some, ◌≡◌, ◌≢◌, ◌⊎◌, refl, get_elem?,
  is_some, arith, subst, Bool-cases, Option-cases, inl, inr, All, All-append,
}
use mathlib.Core.Option.{some-injective}
use rig_stack.Prelude.Text.{decimal}
use rig_stack.Client.Http.{Request, Json, post}
use rig_stack.Client.Endpoints.{
  create_json, instances_list, vpcs_list, instances_create, instances_start, instances_stop,
  instances_delete,
}
use rig_stack.Client.Http.{ok, err}
use rig_stack.Client.Types.{ApiInstance}
use rig_stack.Controller.Images.{in_catalog}
use rig_stack.Controller.Api.Answers.{received}
use rig_stack.Controller.Instances.{CreateRequest, read_create, check_create}
use rig_stack.Runtime.{World, Reach}
use rig_stack.Runtime.Invariant.{Steps_inv}
use rig_stack.Instances.{
  State, Event, Task, Reply, Form, Flavor, flavors, resume, load, is_incomplete, create_data,
  handle_create, handle_start, handle_stop, confirm, initial, tick, refresh, submit, confirm_delete,
  power, ask_delete, loaded, created, deleted,
}
use rig_stack.Instances.Page.{page, enabled, handle, power_button, delete_button, filtered}

-- A request is no post, or the controller reads its body, all its checks pass, and it knows the
-- image.
abbrev pub IsAccepted : Request → Type 0
IsAccepted r =
    (r.method ≢ post)
    ⊎ ((j : Json) × (d : CreateRequest) × (r.body ≡ some j)
        × (read_create j ≡ some d)
        × (check_create d ≡ none)
        × (in_catalog d.os_image ≡ true))

-- The form holds an index of `FLAVORS` and an image of the catalog.
abbrev pub IsFilled : Form → Type 0
IsFilled f = (is_some (get_elem? flavors f.flavor) ≡ true) × (in_catalog f.os ≡ true)

abbrev ReadBack : Form → Flavor → Type 0
ReadBack f flavor =
    (read_create (create_json (create_data f flavor)) ≡ some (received (create_data f flavor)))
    × (check_create (received (create_data f flavor)) ≡ none)

-- A name that is not blank and a VPC pass with each of the flavors.
create_data-ReadBack :
    (f : Form) (flavor : Flavor) (i : ℕ)
    → get_elem? flavors i ≡ some flavor
    → is_incomplete f ≡ false
    → ReadBack f flavor
unfolding read_create create_json decimal check_create
create_data-ReadBack f flavor zero h c =
    subst (ReadBack f) (some-injective _ _ h) (refl, ground arith)
create_data-ReadBack f flavor (suc zero) h c =
    subst (ReadBack f) (some-injective _ _ h) (refl, ground arith)
create_data-ReadBack f flavor (suc (suc zero)) h c =
    subst (ReadBack f) (some-injective _ _ h) (refl, ground arith)
create_data-ReadBack f flavor (suc (suc (suc i))) h c = cc

submitted :
    (f : Form) (flavor : Flavor)
    → get_elem? flavors f.flavor ≡ some flavor
    → is_incomplete f ≡ false
    → in_catalog f.os ≡ true
    → IsAccepted (instances_create (create_data f flavor))
unfolding instances_create
submitted f flavor h c known =
    let (same, passed) = create_data-ReadBack f flavor f.flavor h c in
    inr (
      create_json (create_data f flavor),
      received (create_data f flavor),
      refl,
      same,
      passed,
      known,
    )

handle_create-IsAccepted : (s : State) → IsFilled s.form → All IsAccepted (handle_create s).sent
unfolding handle_create
handle_create-IsAccepted s h = elim (Bool-cases (is_incomplete s.form)) [
  | inl missing ↦ rw missing tt
  | inr filled ↦ elim (Option-cases (get_elem? flavors s.form.flavor)) [
    | inl e ↦ rw (filled, e) tt
    | inr (flavor, e) ↦ rw (filled, e) (submitted s.form flavor e filled h.1, tt)
  ]
]

-- The other requests of the page are no posts.
load-IsAccepted : (s : State) → All IsAccepted (load s).sent
unfolding load instances_list vpcs_list
load-IsAccepted s = (inl (λ e. cc), (inl (λ e. cc), tt))

start-IsAccepted : (id : String) → IsAccepted (instances_start id)
unfolding instances_start
start-IsAccepted id = inl (λ e. cc)

stop-IsAccepted : (id : String) → IsAccepted (instances_stop id)
unfolding instances_stop
stop-IsAccepted id = inl (λ e. cc)

delete-IsAccepted : (id : String) → IsAccepted (instances_delete id)
unfolding instances_delete
delete-IsAccepted id = inl (λ e. cc)

confirm-IsAccepted : (s : State) → All IsAccepted (confirm s).sent
unfolding confirm
confirm-IsAccepted s = elim (Option-cases s.delete_target) [
  | inl e ↦ rw e tt
  | inr (target, e) ↦ rw e (delete-IsAccepted target.id, tt)
]

power_button-IsAccepted :
    (row : Option ApiInstance) (s : State) → All IsAccepted (power_button row s).sent
unfolding handle_start handle_stop
power_button-IsAccepted none s = tt
power_button-IsAccepted (some i) s = elim (Bool-cases (i.status == "running")) [
  | inl e ↦ rw e (stop-IsAccepted i.id, tt)
  | inr e ↦ rw e (start-IsAccepted i.id, tt)
]

delete_button-IsAccepted :
    (row : Option ApiInstance) (s : State) → All IsAccepted (delete_button row s).sent
delete_button-IsAccepted none s = tt
delete_button-IsAccepted (some i) s = tt

module _ (lower : String → String) where
  handle-IsFilled :
      (s : State) (e : Event)
      → enabled lower s e ≡ true
      → IsFilled s.form
      → IsFilled (handle lower s e).state.form
  unfolding enabled handle
  handle-IsFilled s e on h = ground arith

  handle-IsAccepted :
      (s : State) (e : Event) → IsFilled s.form → All IsAccepted (handle lower s e).sent
  unfolding handle
  handle-IsAccepted s tick h = load-IsAccepted s
  handle-IsAccepted s refresh h = load-IsAccepted s
  handle-IsAccepted s submit h = handle_create-IsAccepted s h
  handle-IsAccepted s confirm_delete h = confirm-IsAccepted s
  handle-IsAccepted s (power k) h = power_button-IsAccepted (get_elem? (filtered lower s) k) s
  handle-IsAccepted s (ask_delete k) h = delete_button-IsAccepted (get_elem? (filtered lower s) k) s
  handle-IsAccepted s _ h = tt

resume-IsFilled :
    (s : State) (t : Task) (r : Reply t) → IsFilled s.form → IsFilled (resume s t r).state.form
unfolding resume
resume-IsFilled s loaded (ok v) h = h
resume-IsFilled s loaded (err m) h = h
resume-IsFilled s created (ok i) h = (refl, refl)
resume-IsFilled s created (err m) h = h
resume-IsFilled s _ r h = h

resume-IsAccepted : (s : State) (t : Task) (r : Reply t) → All IsAccepted (resume s t r).sent
unfolding resume
resume-IsAccepted s loaded (ok v) = tt
resume-IsAccepted s loaded (err m) = tt
resume-IsAccepted s created (ok i) = load-IsAccepted s
resume-IsAccepted s created (err m) = tt
resume-IsAccepted s deleted r = tt
resume-IsAccepted s _ r = load-IsAccepted s

pub posts_accepted :
    (lower : String → String) {w : World State Task}
    → Reach (page lower) w
    → IsFilled w.state.form × All IsAccepted w.sent
unfolding load
posts_accepted lower r =
    Steps_inv (page lower) (λ w. IsFilled w.state.form × All IsAccepted w.sent)
      (λ w e on (f, h). (
        handle-IsFilled lower w.state e on f,
        All-append IsAccepted w.sent (handle lower w.state e).sent h
            (handle-IsAccepted lower w.state e f),
      ))
      (λ w before behind t y at (f, h). (
        resume-IsFilled w.state t y f,
        All-append IsAccepted w.sent (resume w.state t y).sent h (resume-IsAccepted w.state t y),
      ))
      r ((refl, refl), load-IsAccepted initial)
