-- ===== src/Tests/InstancesPage.antt =====
-- A run of the page `RealInstances`, and its results there. The names of the run are in lower case.
use rig_stack.Prelude.{
  ℕ, String, true, none, some, List, [], ◌∷◌, ◌≡◌, ◌≢◌, ◌++◌, refl, flag, tally,
}
use rig_stack.Prelude.Text.{trim}
use rig_stack.Client.Http.{ok, err, req, response, to_void, Result}
use rig_stack.Client.Types.{ApiInstance, ApiVpc}
use rig_stack.Controller.Api.{remove_instance}
use rig_stack.Controller.Api.Answers.{api_instance}
use rig_stack.Tests.Cloud
use rig_stack.Runtime.{World, Reach, Steps, here, next, act, settle, after}
use rig_stack.Tests.Data.{instance_of, web, db}
use rig_stack.Instances.{
  State, Task, load, initial, resume, open_modal, set_name, set_vpc, submit, loaded, tick, deleted,
  reload_timer, ask_delete,
}
use rig_stack.Instances.Page.{page, handle, enabled, row_enabled}
use rig_stack.Instances.Requests.{creates, one_creation}
use rig_stack.Instances.Deletion.{refused_deletion_is_silent}
use rig_stack.Instances.Errors.{error_never_cleared}

abbrev as_is : String → String
as_is t = t

abbrev vpc : ApiVpc
vpc = record {
  id = "vpc-1";
  name = "main";
  cidr = "10.0.1.0/24";
  status = "available";
  created_at = "2026-01-01T00:00:00Z";
}

abbrev two : List ApiInstance
two = web ∷ db ∷ []

-- The page is mounted, its lists come, and the dialog is opened, filled in and submitted.
abbrev mounted : World State Task
mounted = load initial

abbrev listed : World State Task
listed = after mounted [] (resume mounted.state loaded (ok (some two, some (vpc ∷ []))))

abbrev opened : World State Task
opened = after listed listed.tasks (handle as_is listed.state open_modal)

abbrev named : World State Task
named = after opened opened.tasks (handle as_is opened.state (set_name " cache "))

abbrev filled : World State Task
filled = after named named.tasks (handle as_is named.state (set_vpc "vpc-1"))

abbrev submitted : World State Task
submitted = after filled filled.tasks (handle as_is filled.state submit)

filled_run : Reach (page as_is) filled
unfolding enabled handle load resume
filled_run =
    next
      (next
        (next (next here (settle mounted [] [] loaded (ok (some two, some (vpc ∷ []))) refl))
          (act listed open_modal refl))
        (act opened (set_name " cache ") refl))
      (act named (set_vpc "vpc-1") refl)

submitted_run : Reach (page as_is) submitted
unfolding enabled handle load resume trim
submitted_run = next filled_run (act filled submit refl)

one_creation_example : flag submitted.state.creating ≡ tally creates submitted.tasks
one_creation_example = one_creation as_is submitted_run

abbrev answer : Result ApiInstance
answer = ok (instance_of "cache" "pending")

-- The page asks whether to delete "db".
abbrev asked : State
asked = (handle as_is listed.state (ask_delete 1)).state

abbrev clock : ℕ → String
clock t = "1970-01-01T00:00:30Z"

-- The page's row of the instance that runs in the small cloud.
abbrev shown : ApiInstance
shown = api_instance clock Cloud.web

refused_deletion_is_silent_example :
    let answered = remove_instance clock Cloud.env "vm-1" Cloud.sys in
    let answer = req "null" (response answered.0) in
    let settled = resume listed.state deleted (to_void answer) in
    let waited = resume settled.state reload_timer tt in
    let reloaded = resume waited.state loaded (ok (some (shown ∷ []), some (vpc ∷ []))) in
    (row_enabled (some shown) ≡ true)
    × (answer ≡ err "stop the instance before deleting")
    × (answered.1 ≡ Cloud.sys)
    × (settled.tasks ≡ reload_timer ∷ [])
    × (waited.tasks ≡ loaded ∷ [])
    × (settled.alerts ++ waited.alerts ++ reloaded.alerts ≡ [])
    × (reloaded.state.error ≡ listed.state.error)
    × (reloaded.state.instances ≡ shown ∷ [])
refused_deletion_is_silent_example =
    refused_deletion_is_silent clock Cloud.env "null" Cloud.sys Cloud.web listed.state shown
      (shown ∷ []) (vpc ∷ []) Cloud.found_web refl refl

-- The first load fails, and the timer starts a second one.
abbrev broken : World State Task
broken = after mounted [] (resume mounted.state loaded (err "HTTP 500"))

abbrev retried : World State Task
retried = after broken broken.tasks (handle as_is broken.state tick)

retried_run : Steps (page as_is) broken retried
unfolding enabled
retried_run = next here (act broken tick refl)

error_never_cleared_example : retried.state.error ≢ none
unfolding resume load
error_never_cleared_example = error_never_cleared as_is retried_run (λ e. cc)
