-- ===== src/InstanceDetail/Loading.antt =====
-- How the page `RealInstanceDetail` comes out of its loading state, and its power button.
use rig_stack.Prelude.{
  String, ◌==◌, Bool, true, false, Option, none, some, List, [], ◌∷◌, All, ◌≡◌, ◌≢◌, refl, arith,
  or_else, if◌then◌else◌, Bool-cases, inl, inr, eq_iff,
}
use mathlib.Core.List.{Memᴰ}
use rig_stack.Client.Http.{ok, err}
use rig_stack.Client.Types.{ApiInstance}
use rig_stack.Client.Endpoints.{instances_start}
use rig_stack.Instances.{in_transition}
use rig_stack.Instances.Page.{row_enabled}
use rig_stack.Runtime.{World, Step, act, settle}
use rig_stack.InstanceDetail.{
  State, Event, Task, loaded, started, stopped, sampled, Reply, page, enabled, handle, resume,
  find_instance, power,
}

handle-loading :
    (id : String) (s : State) (e : Event)
    → ((handle id s e).state.loading ≡ s.loading) × ((handle id s e).state.instance ≡ s.instance)
unfolding handle
handle-loading id s e = (ground arith, ground arith)

-- The instance of an id on a list, or none if the list has none of it.
abbrev pub Shown : String → List ApiInstance → Option ApiInstance → Type 0
Shown id list none = All (λ (i : ApiInstance). i.id ≢ id) list
Shown id list (some i) = (i.id ≡ id) × Memᴰ i list

shown_next :
    (id : String) (i : ApiInstance) (is : List ApiInstance) (o : Option ApiInstance) (same : Bool)
    → (i.id == id) ≡ same
    → Shown id is o
    → Shown id (i ∷ is) (if same then some i else o)
shown_next id i is o true e h = ((eq_iff i.id id).0 e, Memᴰ.head refl)
shown_next id i is none false e h = (ground (arith, eq_iff i.id id), h)
shown_next id i is (some j) false e (same, there) = (same, Memᴰ.tail there)

find_instance-Shown : (id : String) (is : List ApiInstance) → Shown id is (find_instance id is)
unfolding find_instance
find_instance-Shown id [] = tt
find_instance-Shown id (i ∷ is) =
    shown_next id i is (find_instance id is) (i.id == id) refl (find_instance-Shown id is)

-- What a reply does to the loading state: the list that the controller sent ends it, and the page
-- has the instance of its id on that list; an error of that request changes nothing; and any other
-- reply keeps it, and the instance.
abbrev pub Replied : String → (t : Task) → Reply t → State → State → Type 0
Replied id loaded (ok list) s v = (v.loading ≡ false) × Shown id (or_else list []) v.instance
Replied id loaded (err m) s v = v ≡ s
Replied id _ r s v = (v.loading ≡ s.loading) × (v.instance ≡ s.instance)

resume-Replied :
    (id : String) (s : State) (t : Task) (r : Reply t) → Replied id t r s (resume id s t r).state
unfolding resume
resume-Replied id s loaded (ok list) = (refl, find_instance-Shown id (or_else list []))
resume-Replied id s loaded (err m) = refl
resume-Replied id s started (ok u) = (refl, refl)
resume-Replied id s started (err m) = (refl, refl)
resume-Replied id s stopped (ok u) = (refl, refl)
resume-Replied id s stopped (err m) = (refl, refl)
resume-Replied id s (sampled g) (ok m) = (ground arith, ground arith)
resume-Replied id s (sampled g) (err m) = (ground arith, ground arith)

-- The same of any step of the page; an event keeps both.
abbrev pub Ended : (id : String) {w v : World State Task} → Step (page id) w v → Type 0
Ended id (act w e on) =
    ((handle id w.state e).state.loading ≡ w.state.loading)
    × ((handle id w.state e).state.instance ≡ w.state.instance)
Ended id (settle w before behind t y at) = Replied id t y w.state (resume id w.state t y).state

-- The page leaves its loading state only by a list of instances that the controller sends, and always by
-- such a list, after which it has the instance of its id on that list, or none if there is
-- none. A request for the list that fails leaves the whole state of the page as it was, so a page that loads
-- goes on loading and has no message; and no other step changes the loading state or the instance.
pub loading_ends_by_list :
    (id : String) {w v : World State Task} → (step : Step (page id) w v) → Ended id step
loading_ends_by_list id (act w e on) = handle-loading id w.state e
loading_ends_by_list id (settle w before behind t y at) = resume-Replied id w.state t y

in_transition-not_running :
    (i : ApiInstance) → in_transition i ≡ true → (i.status == "running") ≡ false
in_transition-not_running i h = elim (Bool-cases (i.status == "running")) [
  | inl e ↦ cc (rw ((eq_iff i.status "running").0 e) at h)
  | inr e ↦ e
]

-- For an instance in transition that the page has loaded, and whose buttons in the table of instances
-- are disabled, the button of this page is enabled and sends a start.
pub power_in_transition :
    (id : String) (s : State) (i : ApiInstance)
    → s.loading ≡ false
    → s.instance ≡ some i
    → in_transition i ≡ true
    → (row_enabled (some i) ≡ false)
      × (enabled s power ≡ true)
      × ((handle id s power).sent ≡ instances_start i.id ∷ [])
unfolding enabled handle
power_in_transition id s i h k t = (rw t, rw (h, k), rw (k, in_transition-not_running i t))
