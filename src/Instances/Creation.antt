-- ===== src/Instances/Creation.antt =====
-- The creation of an instance, from the dialog's button to the controller's answer.
use rig_stack.Prelude.{
  String, Bool, true, false, Option, none, some, List, [], ◌∷◌, ◌≡◌, ◌≤◌, ◌⊎◌, ◌++◌, sym, ap, ◌∙◌,
  refl, is_some, get_elem?, arith, tally, flag, Option-cases, inl, inr,
}
use rig_stack.Client.Http.{Result, ok, err}
use rig_stack.Client.Types.{ApiInstance}
use rig_stack.Client.Endpoints.{instances_create, instances_list, vpcs_list}
use rig_stack.Runtime.{World, Reach}
use rig_stack.Runtime.Invariant.{tally-remove}
use rig_stack.Instances.Accepted.{IsFilled, posts_accepted}
use rig_stack.Instances.Requests.{creates, one_creation}
use rig_stack.Instances.{
  State, Task, Flavor, flavors, Form, empty_form, submit, created, resume, create_data,
  handle_create, is_incomplete,
}
use rig_stack.Instances.Page.{enabled, handle, page}

submit-open :
    (lower : String → String) (s : State)
    → enabled lower s submit ≡ true
    → (is_incomplete s.form ≡ false) × (s.creating ≡ false)
unfolding enabled
submit-open lower s on = ground arith

submit_busy :
    (lower : String → String) (s : State) → s.creating ≡ true → enabled lower s submit ≡ false
unfolding enabled
submit_busy lower s busy = ground arith

handle_create_lem :
    (s : State) (flavor : Flavor)
    → is_incomplete s.form ≡ false
    → get_elem? flavors s.form.flavor ≡ some flavor
    → ((handle_create s).sent ≡ instances_create (create_data s.form flavor) ∷ [])
      × ((handle_create s).state.creating ≡ true)
unfolding handle_create
handle_create_lem s flavor c e = (rw (c, e), rw (c, e))

absurd_none : (o : Option Flavor) → o ≡ none → is_some o ≡ true → ⊥
absurd_none none e h = cc
absurd_none (some f) e h = cc

flavor_known :
    (f : Form) → IsFilled f → (flavor : Flavor) × (get_elem? flavors f.flavor ≡ some flavor)
flavor_known f h = elim (Option-cases (get_elem? flavors f.flavor)) [
  | inl e ↦ absurd (absurd_none (get_elem? flavors f.flavor) e h.0)
  | inr found ↦ found
]

-- The button of the dialog, where it is enabled in a reachable world, always sends: one request,
-- with the form's own data, while no other creation is in flight; the button is then disabled.
pub submit_lem :
    (lower : String → String) {w : World State Task}
    → Reach (page lower) w
    → enabled lower w.state submit ≡ true
    → (flavor : Flavor) × (get_elem? flavors w.state.form.flavor ≡ some flavor)
      × ((handle lower w.state submit).sent
          ≡ instances_create (create_data w.state.form flavor) ∷ [])
      × (tally creates w.tasks ≡ 0)
      × (enabled lower (handle lower w.state submit).state submit ≡ false)
unfolding handle
submit_lem lower {w} r on =
    let (filled, idle) = submit-open lower w.state on in
    let (flavor, e) = flavor_known w.state.form (posts_accepted lower r).0 in
    let (sent, busy) = handle_create_lem w.state flavor filled e in
    (
      flavor,
      e,
      sent,
      sym (one_creation lower r) ∙ ap flag idle,
      submit_busy lower (handle_create w.state).state busy,
    )

flag-le : (b : Bool) → flag b ≤ 1
flag-le b = ground arith

none_left :
    (lower : String → String) {w : World State Task} (before behind : List Task)
    → Reach (page lower) w
    → w.tasks ≡ before ++ created ∷ behind
    → tally creates (before ++ behind) ≡ 0
none_left lower {w} before behind r at = omega (
  arith,
  flag-le w.state.creating,
  one_creation lower r,
  tally-remove creates w.tasks before behind created at,
)

-- The answer to a creation, whatever it is, ends it: no creation is in flight and the page is not
-- creating. A success closes the dialog, empties the form and loads the lists again with no alert;
-- a failure shows its message in one alert and leaves the dialog and the form as they are.
pub created_lem :
    (lower : String → String) {w : World State Task} (before behind : List Task)
    (r : Result ApiInstance)
    → Reach (page lower) w
    → w.tasks ≡ before ++ created ∷ behind
    → (tally creates (before ++ behind) ≡ 0)
      × ((resume w.state created r).state.creating ≡ false)
      × (((i : ApiInstance) × (r ≡ ok i)
            × ((resume w.state created r).state.show_modal ≡ false)
            × ((resume w.state created r).state.form ≡ empty_form)
            × ((resume w.state created r).sent ≡ instances_list ∷ vpcs_list ∷ [])
            × ((resume w.state created r).alerts ≡ []))
          ⊎ ((m : String) × (r ≡ err m)
              × ((resume w.state created r).state.show_modal ≡ w.state.show_modal)
              × ((resume w.state created r).state.form ≡ w.state.form)
              × ((resume w.state created r).sent ≡ [])
              × ((resume w.state created r).alerts ≡ m ∷ [])))
unfolding resume
created_lem lower {w} before behind (ok i) r at =
    (none_left lower before behind r at, refl, inl (i, refl, refl, refl, refl, refl))
created_lem lower {w} before behind (err m) r at =
    (none_left lower before behind r at, refl, inr (m, refl, refl, refl, refl, refl))
