-- ===== src/Tests/NodesPage.antt =====
-- A run of the page `RealNodes`: the list comes, the dialog is opened, and the command is copied.
use rig_stack.Prelude.{true, some, none, List, [], ◌∷◌, ◌≢◌, refl}
use rig_stack.Client.Http.{ok, err}
use rig_stack.Client.Types.{ApiNode}
use rig_stack.Runtime.{World, Reach, Steps, here, next, act, settle, after}
use rig_stack.Tests.Data.{node_of}
use rig_stack.Nodes.{
  State, Task, loaded, open_modal, copy, tick, load, initial, page, enabled, handle, resume,
}
use rig_stack.Nodes.Requests.{nodes_error_never_cleared}

abbrev two : List ApiNode
two = node_of "node-1" "healthy" ∷ node_of "node-2" "unreachable" ∷ []

abbrev mounted : World State Task
mounted = load initial

abbrev listed : World State Task
listed = after mounted [] (resume mounted.state loaded (ok (some two)))

abbrev opened : World State Task
opened = after listed listed.tasks (handle "rig" true listed.state open_modal)

abbrev copied : World State Task
copied = after opened opened.tasks (handle "rig" true opened.state copy)

copied_run : Reach (page "rig" true) copied
unfolding enabled handle load resume
copied_run =
    next
      (next (next here (settle mounted [] [] loaded (ok (some two)) refl))
        (act listed open_modal refl))
      (act opened copy refl)

-- The first load fails, and the timer starts a second one.
abbrev broken : World State Task
broken = after mounted [] (resume mounted.state loaded (err "HTTP 500"))

abbrev retried : World State Task
retried = after broken broken.tasks (handle "rig" true broken.state tick)

retried_run : Steps (page "rig" true) broken retried
unfolding enabled
retried_run = next here (act broken tick refl)

nodes_error_never_cleared_example : retried.state.error ≢ none
unfolding load resume
nodes_error_never_cleared_example = nodes_error_never_cleared "rig" true retried_run (λ e. cc)
