-- ===== src/Tests/DashboardPage.antt =====
-- Runs of the page `RealDashboard`: its lists come, or an error comes, and the timer goes on.
use rig_stack.Prelude.{some, none, [], ◌∷◌, ◌≢◌, refl}
use rig_stack.Client.Http.{ok, err}
use rig_stack.Runtime.{World, Steps, here, next, act, after}
use rig_stack.Dashboard.{State, Task, loaded, tick, load, initial, page, handle, resume}
use rig_stack.Dashboard.Counting.{dashboard_error_never_cleared}
use rig_stack.Tests.Data.{web, db, node_of}

abbrev mounted : World State Task
mounted = load initial

abbrev listed : World State Task
listed = after mounted [] (
    resume mounted.state loaded (ok (some (web ∷ db ∷ []), some (node_of "node-1" "healthy" ∷ []))))

abbrev ticked : World State Task
ticked = after listed listed.tasks (handle listed.state tick)

ticked_run : Steps page listed ticked
ticked_run = next here (act listed tick refl)

abbrev broken : World State Task
broken = after mounted [] (resume mounted.state loaded (err "HTTP 500"))

abbrev retried : World State Task
retried = after broken broken.tasks (handle broken.state tick)

retried_run : Steps page broken retried
retried_run = next here (act broken tick refl)

dashboard_error_never_cleared_example : retried.state.error ≢ none
unfolding load resume
dashboard_error_never_cleared_example = dashboard_error_never_cleared retried_run (λ e. cc)
