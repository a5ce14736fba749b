-- ===== src/Nodes/Requests.antt =====
-- What the page `RealNodes` has in flight and what it sends.
use rig_stack.Prelude.{
  ℕ, ◌+◌, ◌-◌, ◌≤◌, String, Bool, none, ◌≡◌, ◌≢◌, ◌++◌, arith, flag, tally, tally-append, sym, ◌∙◌,
}
use rig_stack.Client.Http.{ok, err}
use rig_stack.Runtime.{World, Reach, Steps}
use rig_stack.Runtime.Invariant.{Steps_inv, tally-remove}
use rig_stack.Nodes.{
  State, Event, Task, loaded, deleted, copied_timer, Reply, page, handle, resume, load,
}

abbrev pub loads : Task → ℕ
loads loaded = 1
loads _ = 0

abbrev pub timers : Task → ℕ
timers copied_timer = 1
timers _ = 0

-- The page says that it loads only while a load is in flight, and shows the mark of a copied command
-- only while a timer is set that takes the mark away.
abbrev pub IsTracked : World State Task → Type 0
IsTracked w =
    (flag w.state.loading ≤ tally loads w.tasks) × (flag w.state.copied ≤ tally timers w.tasks)

module _ (host : String) (clipboard : Bool) where
  handle-tasks :
      (s : State) (e : Event)
      → (flag (handle host clipboard s e).state.loading
          ≤ flag s.loading + tally loads (handle host clipboard s e).tasks)
        × (flag (handle host clipboard s e).state.copied
            ≤ flag s.copied + tally timers (handle host clipboard s e).tasks)
  unfolding handle
  handle-tasks s e = (ground arith, ground arith)

  handle-error : (s : State) (e : Event) → (handle host clipboard s e).state.error ≡ s.error
  unfolding handle
  handle-error s e = ground arith

resume-loads :
    (s : State) (t : Task) (r : Reply t)
    → flag (resume s t r).state.loading
      ≤ flag s.loading - loads t + tally loads (resume s t r).tasks
unfolding resume
resume-loads s loaded r = ground arith
resume-loads s _ r = ground arith

resume-timers :
    (s : State) (t : Task) (r : Reply t)
    → flag (resume s t r).state.copied
      ≤ flag s.copied - timers t + tally timers (resume s t r).tasks
unfolding resume
resume-timers s loaded r = ground arith
resume-timers s deleted r = ground arith
resume-timers s copied_timer r = ground arith

resume-error :
    (s : State) (t : Task) (r : Reply t) → s.error ≢ none → (resume s t r).state.error ≢ none
unfolding resume
resume-error s loaded (ok v) h = h
resume-error s loaded (err m) h = λ e. cc
resume-error s _ r h = ground arith

-- In every reachable world the nodes page says that it loads only while a load is in flight, and
-- shows the mark of a copied command only while a timer is set that takes it away.
pub nodes-IsTracked :
    (host : String) (clipboard : Bool) {w : World State Task}
    → Reach (page host clipboard) w
    → IsTracked w
unfolding load
nodes-IsTracked host clipboard r =
    Steps_inv (page host clipboard) IsTracked
      (λ w e on h. omega (
        arith,
        handle-tasks host clipboard w.state e,
        tally-append loads w.tasks (handle host clipboard w.state e).tasks,
        tally-append timers w.tasks (handle host clipboard w.state e).tasks,
      ))
      (λ w before behind t y at h. omega (
        arith,
        tally-remove loads w.tasks before behind t at,
        tally-remove timers w.tasks before behind t at,
        resume-loads w.state t y,
        resume-timers w.state t y,
        tally-append loads (before ++ behind) (resume w.state t y).tasks,
        tally-append timers (before ++ behind) (resume w.state t y).tasks,
      ))
      r (omega arith)

-- Once the nodes page has recorded an error, one is recorded in every world that follows.
pub nodes_error_never_cleared :
    (host : String) (clipboard : Bool) {w v : World State Task}
    → Steps (page host clipboard) w v
    → w.state.error ≢ none
    → v.state.error ≢ none
nodes_error_never_cleared host clipboard r =
    Steps_inv (page host clipboard) (λ w. w.state.error ≢ none)
      (λ w e on h same. h (sym (handle-error host clipboard w.state e) ∙ same))
      (λ w before behind t y at h. resume-error w.state t y h) r
