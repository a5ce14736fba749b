-- ===== src/Tests/Gate.antt =====
-- A run of the gate: a poll that is refused, a wait, and a poll that is answered.
use rig_stack.Prelude.{[], refl}
use rig_stack.Client.Http.{rejected, response, Response, value, null}
use rig_stack.Runtime.{World, Reach, Step, Steps, here, next, act, settle, after}
use rig_stack.HealthGate.{
  State, Task, fetched, paused, next_dots, unmount, initial, poll, gate, handle, resume, view,
  children,
}
use rig_stack.HealthGate.Polling.{IsPolling, gate-IsPolling}

abbrev healthy : Response
healthy = record { status = 200; json = value null }

abbrev mounted : World State Task
mounted = poll initial

abbrev refused : World State Task
refused = after mounted [] (resume mounted.state fetched (rejected "Failed to fetch"))

abbrev dotted : World State Task
dotted = after refused refused.tasks (handle refused.state next_dots)

abbrev asked : World State Task
asked = after dotted [] (resume dotted.state paused tt)

abbrev answered : World State Task
answered = after asked [] (resume asked.state fetched (response healthy))

asked_run : Reach gate asked
unfolding poll handle resume rig_stack.HealthGate.enabled
asked_run =
    next
      (next (next here (settle mounted [] [] fetched (rejected "Failed to fetch") refl))
        (act refused next_dots refl))
      (settle dotted [] [] paused tt refl)

answer-Step : Step gate asked answered
unfolding poll handle resume
answer-Step = settle asked [] [] fetched (response healthy) refl

gate-IsPolling_example : IsPolling asked
gate-IsPolling_example = gate-IsPolling asked_run

abbrev left : World State Task
left = after answered answered.tasks (handle answered.state unmount)

left_run : Steps gate answered left
unfolding poll handle resume rig_stack.HealthGate.enabled
left_run = next here (act answered unmount refl)
