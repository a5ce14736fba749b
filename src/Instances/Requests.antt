-- ===== src/Instances/Requests.antt =====
-- What the page `RealInstances` has in flight: one creation at most, and a load whenever it says
-- that it loads.
use rig_stack.Prelude.{ℕ, ◌+◌, ◌-◌, ◌≤◌, String, true, ◌≡◌, ◌++◌, arith, flag, tally, tally-append}
use rig_stack.Runtime.{World, Reach}
use rig_stack.Runtime.Invariant.{Steps_inv, tally-remove}
use rig_stack.Instances.{State, Event, Task, loaded, created, Reply, resume, load}
use rig_stack.Instances.Page.{page, enabled, handle}

abbrev pub creates : Task → ℕ
creates created = 1
creates _ = 0

abbrev pub loads : Task → ℕ
loads loaded = 1
loads _ = 0

module _ (lower : String → String) where
  handle-creates :
      (s : State) (e : Event)
      → enabled lower s e ≡ true
      → flag (handle lower s e).state.creating
        ≡ flag s.creating + tally creates (handle lower s e).tasks
  unfolding enabled handle
  handle-creates s e on = ground arith

resume-creates :
    (s : State) (t : Task) (r : Reply t)
    → creates t ≤ flag s.creating
    → flag (resume s t r).state.creating + creates t
      ≡ flag s.creating + tally creates (resume s t r).tasks
unfolding resume
resume-creates s loaded r h = ground arith
resume-creates s _ r h = ground arith

-- In every reachable world the page is creating exactly if one creation is in flight, and there is
-- never a second one.
pub one_creation :
    (lower : String → String) {w : World State Task}
    → Reach (page lower) w
    → flag w.state.creating ≡ tally creates w.tasks
unfolding load
one_creation lower r =
    Steps_inv (page lower) (λ w. flag w.state.creating ≡ tally creates w.tasks)
      (λ w e on h. omega (
        arith,
        handle-creates lower w.state e on,
        tally-append creates w.tasks (handle lower w.state e).tasks,
      ))
      (λ w before behind t y at h. omega (
        arith,
        tally-remove creates w.tasks before behind t at,
        resume-creates w.state t y,
        tally-append creates (before ++ behind) (resume w.state t y).tasks,
      ))
      r (omega arith)

module _ (lower : String → String) where
  handle-loads :
      (s : State) (e : Event)
      → flag (handle lower s e).state.loading
        ≤ flag s.loading + tally loads (handle lower s e).tasks
  unfolding handle
  handle-loads s e = ground arith

resume-loads :
    (s : State) (t : Task) (r : Reply t)
    → flag (resume s t r).state.loading
      ≤ flag s.loading - loads t + tally loads (resume s t r).tasks
unfolding resume
resume-loads s loaded r = ground arith
resume-loads s _ r = ground arith

-- In every reachable world a page that says that it loads has a load in flight.
pub loading_has_load :
    (lower : String → String) {w : World State Task}
    → Reach (page lower) w
    → flag w.state.loading ≤ tally loads w.tasks
unfolding load
loading_has_load lower r =
    Steps_inv (page lower) (λ w. flag w.state.loading ≤ tally loads w.tasks)
      (λ w e on h. omega (
        arith,
        handle-loads lower w.state e,
        tally-append loads w.tasks (handle lower w.state e).tasks,
      ))
      (λ w before behind t y at h. omega (
        arith,
        tally-remove loads w.tasks before behind t at,
        resume-loads w.state t y,
        tally-append loads (before ++ behind) (resume w.state t y).tasks,
      ))
      r (omega arith)
