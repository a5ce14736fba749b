-- ===== src/HealthGate/Polling.antt =====
-- The polling of the gate: it goes on until the controller answers, and ends there.
use rig_stack.Prelude.{
  ℕ, ◌+◌, ◌<◌, ◌≤◌, String, true, false, ◌&&◌, ◌∷◌, ◌++◌, ◌≡◌, refl, ◌∙◌, arith, not, leb,
  Bool-cases, inl, inr, List, [], tally, tally-append, flag,
}
use Prim.Native.String.{count}
use text.Mathlib.TextLemmas.{length-append}
use mathlib.Core.List.{Memᴰ}
use rig_stack.Client.Http.{rejected, Response, response, is_ok}
use rig_stack.Runtime.{World, after, Reach, Steps, Step, act, settle}
use rig_stack.Runtime.Invariant.{Steps_inv, tally-remove, mem-between}
use rig_stack.HealthGate.{
  State, Event, Task, fetched, paused, Reply, gate, enabled, handle, resume, poll, view, children,
  more_dots,
}

-- Every task of the gate is a round of its loop.
abbrev pub rounds : Task → ℕ
rounds t = 1

-- Between two steps: an index of `MESSAGES`, at most three dots, a round of the loop while the gate
-- is neither ready nor unmounted, and never two rounds, nor one when it is ready.
pub record IsPolling (w : World State Task) : Type 0 where
  pub index : w.state.msg_index < 5
  pub dots : count w.state.dots ≤ 3
  pub alive : flag (not w.state.ready && not w.state.cancelled) ≤ tally rounds w.tasks
  pub single : tally rounds w.tasks + flag w.state.ready ≤ 1

count-more_dots : (d : String) → count (more_dots d) ≤ 3
count-more_dots d = elim (Bool-cases (leb 3 (count d))) [
  | inl e ↦ rw e (omega arith)
  | inr e ↦ rw e (rw (length-append d ".") (ground arith))
]

act_IsPolling :
    (w : World State Task) (e : Event)
    → enabled w.state e ≡ true
    → IsPolling w
    → IsPolling (after w w.tasks (handle w.state e))
unfolding enabled handle
act_IsPolling w e on h =
    ground
      (arith, count-more_dots w.state.dots, tally-append rounds w.tasks (handle w.state e).tasks)

module _ (w : World State Task) (before behind : List Task) where
  settle_IsPolling :
      (t : Task) (r : Reply t)
      → w.tasks ≡ before ++ t ∷ behind
      → IsPolling w
      → IsPolling (after w (before ++ behind) (resume w.state t r))
  unfolding resume
  settle_IsPolling fetched (rejected m) at h = ground (
    arith,
    tally-remove rounds w.tasks before behind fetched at,
    tally-append rounds (before ++ behind) (paused ∷ []),
  )
  settle_IsPolling fetched (response r) at h = ground (
    arith,
    tally-remove rounds w.tasks before behind fetched at,
    tally-append rounds (before ++ behind) (resume w.state fetched (response r)).tasks,
  )
  settle_IsPolling paused r at h = ground (
    arith,
    tally-remove rounds w.tasks before behind paused at,
    tally-append rounds (before ++ behind) (resume w.state paused r).tasks,
  )

-- In every reachable world the loop of the gate is alive while it is needed, and single: exactly
-- one round is under way while the gate is mounted and not ready, none when it is ready, and the
-- message and the dots are in range.
pub gate-IsPolling : {w : World State Task} → Reach gate w → IsPolling w
unfolding poll
gate-IsPolling r =
    Steps_inv gate IsPolling act_IsPolling
      (λ w before behind t y at h. settle_IsPolling w before behind t y at h) r
      (record {
        index = omega arith;
        dots = omega arith;
        alive = omega arith;
        single = omega arith;
      })

handle-ready : (s : State) (e : Event) → (handle s e).state.ready ≡ s.ready
unfolding handle
handle-ready s e = ground arith

resume-ready :
    (s : State) (t : Task) (r : Reply t) → s.ready ≡ true → (resume s t r).state.ready ≡ true
unfolding resume
resume-ready s fetched r h = ground arith
resume-ready s paused r h = ground arith

-- A gate that is ready stays ready, and shows the application, whatever happens after.
pub ready_stays :
    {w v : World State Task}
    → Steps gate w v
    → w.state.ready ≡ true
    → (v.state.ready ≡ true) × (view v.state ≡ children)
unfolding view
ready_stays r h =
    let still =
      Steps_inv gate (λ w. w.state.ready ≡ true) (λ w e on p. handle-ready w.state e ∙ p)
        (λ w before behind t y at p. resume-ready w.state t y p) r h in
    (still, rw still)

opening :
    (s : State) (t : Task) (y : Reply t) (tasks before behind : List Task)
    → tasks ≡ before ++ t ∷ behind
    → s.ready ≡ false
    → (resume s t y).state.ready ≡ true
    → (s.cancelled ≡ false)
      × Memᴰ fetched tasks
      × ((r : Response) × (is_ok r ≡ true)
          × ((resume s t y).state ≡ (resume s fetched (response r)).state))
unfolding resume
opening s fetched (rejected m) tasks before behind at shut h = cc
opening s fetched (response r) tasks before behind at shut h =
    (ground arith, mem-between fetched tasks before behind at, (r, ground arith, refl))
opening s paused y tasks before behind at shut h = ground arith

-- The gate opens in a step only by an answer of the controller that is ok, to a poll that was
-- waiting, and never once it is unmounted.
pub opened_by_answer :
    {w v : World State Task}
    → Step gate w v
    → w.state.ready ≡ false
    → v.state.ready ≡ true
    → (w.state.cancelled ≡ false)
      × Memᴰ fetched w.tasks
      × ((r : Response) × (is_ok r ≡ true)
          × (v.state ≡ (resume w.state fetched (response r)).state))
opened_by_answer (act w e on) shut open_now = cc (handle-ready w.state e)
opened_by_answer (settle w before behind t y at) shut open_now =
    opening w.state t y w.tasks before behind at shut open_now
