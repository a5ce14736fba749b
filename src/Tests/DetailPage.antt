-- ===== src/Tests/DetailPage.antt =====
-- A run of the page `RealInstanceDetail`: the list comes, the tab of the metrics is chosen, left and
-- chosen again before its first answer comes, and a run of a credential.
use rig_stack.Prelude.{true, false, some, [], ◌∷◌, ◌≡◌, refl}
use rig_stack.Client.Http.{ok}
use rig_stack.Client.Endpoints.{instances_start}
use rig_stack.Instances.Page.{row_enabled}
use rig_stack.Runtime.{World, Reach, Step, here, next, act, settle, after, update}
use rig_stack.InstanceDetail.{
  State, Task, loaded, sampled, choose, overview, metrics, Metrics, power, load, initial, page,
  enabled, handle, resume, find_instance,
}
use rig_stack.InstanceDetail.Credential
use rig_stack.InstanceDetail.Credential.{IsFaithful, field, field-IsFaithful}
use rig_stack.InstanceDetail.Loading.{Ended, loading_ends_by_list, power_in_transition}
use rig_stack.InstanceDetail.Sampling.{IsSampling, page-IsSampling, Changed, metrics_by_current}
use rig_stack.Tests.Data.{web, db, instance_of}

abbrev sample : Metrics
sample = record { cpu_pct = "12.5"; ram_mb = 900; time = "2026-01-01T00:00:00Z" }

abbrev mounted : World State Task
mounted = load initial

abbrev listed : World State Task
listed = after mounted [] (resume "web" mounted.state loaded (ok (some (web ∷ db ∷ []))))

abbrev chosen : World State Task
chosen = after listed listed.tasks (handle "web" listed.state (choose metrics))

abbrev left : World State Task
left = after chosen chosen.tasks (handle "web" chosen.state (choose overview))

abbrev again : World State Task
again = after left left.tasks (handle "web" left.state (choose metrics))

-- The answer to the request of the first run comes after the second run has begun.
abbrev late : World State Task
late = after again (sampled 1 ∷ []) (resume "web" again.state (sampled 0) (ok sample))

list-Step : Step (page "web") mounted listed
unfolding load resume
list-Step = settle mounted [] [] loaded (ok (some (web ∷ db ∷ []))) refl

again_run : Reach (page "web") again
unfolding load resume enabled handle find_instance
again_run =
    next
      (next (next (next here list-Step) (act listed (choose metrics) refl))
        (act chosen (choose overview) refl))
      (act left (choose metrics) refl)

late-Step : Step (page "web") again late
unfolding load resume handle
late-Step = settle again [] (sampled 1 ∷ []) (sampled 0) (ok sample) refl

page-IsSampling_example : IsSampling again
page-IsSampling_example = page-IsSampling "web" refl again_run

metrics_by_current_example : Changed "web" refl late-Step
metrics_by_current_example = metrics_by_current "web" refl again_run late-Step

loading_ends_by_list_example : Ended "web" list-Step
loading_ends_by_list_example = loading_ends_by_list "web" list-Step

-- An instance that is being stopped.
abbrev stopping : State
stopping = record (listed.state) { instance = some (instance_of "web" "stopping") }

power_in_transition_example :
    (row_enabled (some (instance_of "web" "stopping")) ≡ false)
    × (enabled stopping power ≡ true)
    × ((handle "web" stopping power).sent ≡ instances_start "web" ∷ [])
unfolding load resume
power_in_transition_example =
    power_in_transition "web" stopping (instance_of "web" "stopping") refl refl refl

abbrev hidden : World Credential.State Credential.Task
hidden = update (Credential.initial "secret" true true)

abbrev copied : World Credential.State Credential.Task
copied = after hidden [] (Credential.handle "secret" true true hidden.state Credential.copy)

copied_run : Reach (field "secret" true true) copied
unfolding Credential.enabled
copied_run = next here (act hidden Credential.copy refl)
