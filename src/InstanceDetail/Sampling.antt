-- ===== src/InstanceDetail/Sampling.antt =====
-- The metrics effect of `RealInstanceDetail`: which of its requests may still change the page.
use rig_stack.Prelude.{
  ℕ, ◌+◌, ◌-◌, ◌≤◌, String, true, false, ◌&&◌, Option, none, some, List, ◌∷◌, ◌++◌, ◌≡◌, ◌≢◌, ◌⊎◌,
  refl, ap, arith, sym, ◌∙◌, flag, tally, tally-append, is_some, truthy, Bool-cases, inl, inr,
}
use rig_stack.Client.Http.{Result, ok, err}
use rig_stack.Runtime.{Out, World, after, Reach, Step, act, settle}
use rig_stack.Runtime.Invariant.{Steps_inv, tally-remove}
use rig_stack.InstanceDetail.{
  State, Event, Task, Tab, overview, console, metrics, loaded, started, stopped, sampled, Reply,
  Metrics, page, handle, resume, load, on_sampled, same_tab, is_current, choose_tab, choose, sample,
  tick, refresh, power,
}

-- A request of the run of the effect that is not cancelled.
abbrev pub current : Option ℕ → Task → ℕ
current effect (sampled g) = flag (is_current g effect)
current effect _ = 0

-- The effect runs exactly on the tab of the metrics, and while it says that it loads a request of
-- its own is in flight.
abbrev pub IsSampling : World State Task → Type 0
IsSampling w =
    (is_some w.state.effect ≡ same_tab w.state.tab metrics)
    × (flag (w.state.metrics_loading && is_some w.state.effect)
        ≤ tally (current w.state.effect) w.tasks)

-- What one handler may do: keep the run of the effect, and load only with a request of that run, or
-- have a new run or none, and load only with a request of the new one.
abbrev Kept : State → Out State Task → Type 0
Kept s o =
    (o.state.effect ≡ s.effect)
    × (flag (o.state.metrics_loading && is_some s.effect)
        ≤ flag (s.metrics_loading && is_some s.effect) + tally (current s.effect) o.tasks)

abbrev Renewed : Out State Task → Type 0
Renewed o =
    flag (o.state.metrics_loading && is_some o.state.effect)
    ≤ tally (current o.state.effect) o.tasks

abbrev OnTab : State → Type 0
OnTab s = is_some s.effect ≡ same_tab s.tab metrics

module _ (id : String) (named : truthy id ≡ true) where
  choose_tab-OnTab : (t : Tab) (s : State) → OnTab s → OnTab (choose_tab id t s).state
  unfolding choose_tab
  choose_tab-OnTab t s h = ground arith

  handle-OnTab : (s : State) (e : Event) → OnTab s → OnTab (handle id s e).state
  unfolding handle
  handle-OnTab s (choose t) h = choose_tab-OnTab t s h
  handle-OnTab s _ h = ground arith

  choose_tab-sampling :
      (t : Tab) (s : State) → Kept s (choose_tab id t s) ⊎ Renewed (choose_tab id t s)
  unfolding choose_tab
  choose_tab-sampling t s = elim (Bool-cases (same_tab t s.tab)) [
    | inl e ↦ inl (rw e, rw e (omega arith))
    | inr e ↦ inr (elim (Bool-cases (same_tab t metrics && truthy id)) [
      | inl f ↦ rw (e, f) (ground arith)
      | inr f ↦ rw (e, f) (ground arith)
    ])
  ]

  handle-sampling : (s : State) (e : Event) → Kept s (handle id s e) ⊎ Renewed (handle id s e)
  unfolding handle
  handle-sampling s tick = inl (refl, omega arith)
  handle-sampling s refresh = inl (refl, omega arith)
  handle-sampling s power = inl (ground arith, ground arith)
  handle-sampling s sample = inl (ground arith, ground arith)
  handle-sampling s (choose t) = choose_tab-sampling t s

  resume-sampling :
      (s : State) (t : Task) (r : Reply t)
      → ((resume id s t r).state.effect ≡ s.effect)
        × ((resume id s t r).state.tab ≡ s.tab)
        × (flag ((resume id s t r).state.metrics_loading && is_some s.effect)
            ≤ flag (s.metrics_loading && is_some s.effect) - current s.effect t)
  unfolding resume
  resume-sampling s loaded (ok v) = (refl, refl, omega arith)
  resume-sampling s loaded (err m) = (refl, refl, omega arith)
  resume-sampling s started r = (ground arith, ground arith, ground arith)
  resume-sampling s stopped r = (ground arith, ground arith, ground arith)
  resume-sampling s (sampled g) r = (ground arith, ground arith, ground arith)

is_metrics : (t : Tab) → same_tab t metrics ≡ true → t ≡ metrics
is_metrics overview h = cc
is_metrics console h = cc
is_metrics metrics h = refl

handle-metrics :
    (id : String) (s : State) (e : Event)
    → ((handle id s e).state.metrics ≡ s.metrics)
      × ((handle id s e).state.metrics_error ≡ s.metrics_error)
unfolding handle choose_tab
handle-metrics id s e = (ground arith, ground arith)

is_current-eq : (g : ℕ) (effect : Option ℕ) → is_current g effect ≡ true → effect ≡ some g
is_current-eq g none h = cc
is_current-eq g (some c) h = ap some (ground arith)

is_current-other : (g : ℕ) (effect : Option ℕ) → is_current g effect ≡ false → effect ≢ some g
is_current-other g none h e = cc
is_current-other g (some c) h e = ground arith

-- The metrics and their error are as they were.
abbrev pub Unchanged : State → State → Type 0
Unchanged s t = (t.metrics ≡ s.metrics) × (t.metrics_error ≡ s.metrics_error)

-- They are what an answer says.
abbrev pub Answered : Result Metrics → State → State → Type 0
Answered (ok m) s t = (t.metrics ≡ some m) × (t.metrics_error ≡ none)
Answered (err m) s t = (t.metrics ≡ s.metrics) × (t.metrics_error ≡ some m)

-- What a reply may do to them: on the tab of the metrics, the answer to a request of the run of the
-- effect that is not cancelled is taken; any other reply changes nothing.
abbrev pub Taken : (t : Task) → Reply t → State → State → Type 0
Taken (sampled g) r s v =
    ((s.tab ≡ metrics) × (s.effect ≡ some g) × Answered r s v)
    ⊎ ((s.effect ≢ some g) × Unchanged s v)
Taken _ r s v = Unchanged s v

on_sampled-Answered :
    (g : ℕ) (s : State) (r : Result Metrics)
    → is_current g s.effect ≡ true
    → Answered r s (on_sampled g s r).state
unfolding on_sampled
on_sampled-Answered g s (ok m) e = rw e (refl, refl)
on_sampled-Answered g s (err m) e = rw e (refl, refl)

on_sampled-Unchanged :
    (g : ℕ) (s : State) (r : Result Metrics)
    → is_current g s.effect ≡ false
    → Unchanged s (on_sampled g s r).state
unfolding on_sampled
on_sampled-Unchanged g s (ok m) e = rw e (refl, refl)
on_sampled-Unchanged g s (err m) e = rw e (refl, refl)

resume-Taken :
    (id : String) (s : State) (t : Task) (r : Reply t)
    → OnTab s
    → Taken t r s (resume id s t r).state
unfolding resume
resume-Taken id s loaded (ok v) h = (refl, refl)
resume-Taken id s loaded (err m) h = (refl, refl)
resume-Taken id s started (ok u) h = (refl, refl)
resume-Taken id s started (err m) h = (refl, refl)
resume-Taken id s stopped (ok u) h = (refl, refl)
resume-Taken id s stopped (err m) h = (refl, refl)
resume-Taken id s (sampled g) r h = elim (Bool-cases (is_current g s.effect)) [
  | inl e ↦
      let running = is_current-eq g s.effect e in
      inl (is_metrics s.tab (sym h ∙ ap is_some running), running, on_sampled-Answered g s r e)
  | inr e ↦ inr (is_current-other g s.effect e, on_sampled-Unchanged g s r e)
]

step_weight :
    (s : State) (o : Out State Task) (tasks : List Task)
    → Kept s o ⊎ Renewed o
    → flag (s.metrics_loading && is_some s.effect) ≤ tally (current s.effect) tasks
    → flag (o.state.metrics_loading && is_some o.state.effect)
      ≤ tally (current o.state.effect) (tasks ++ o.tasks)
step_weight s o tasks (inl (same, more)) h =
    rw same (omega (arith, tally-append (current s.effect) tasks o.tasks))
step_weight s o tasks (inr new) h =
    omega (arith, tally-append (current o.state.effect) tasks o.tasks)

module _ (id : String) (named : truthy id ≡ true) where
  settle_IsSampling :
      (w : World State Task) (before behind : List Task) (t : Task) (r : Reply t)
      → w.tasks ≡ before ++ t ∷ behind
      → IsSampling w
      → IsSampling (after w (before ++ behind) (resume id w.state t r))
  settle_IsSampling w before behind t r at (on_tab, live) =
      let (same, tab, fewer) = resume-sampling id named w.state t r in
      (
        rw (same, tab) on_tab,
        rw same (
            omega (
              arith,
              tally-remove (current w.state.effect) w.tasks before behind t at,
              tally-append (current w.state.effect) (before ++ behind)
                  (resume id w.state t r).tasks,
            )),
      )

  -- In every reachable world of a page whose id is not empty, the metrics effect runs exactly on the tab of the metrics, and while it
  -- says that it loads, a request that it made since the tab was chosen is in flight.
  pub page-IsSampling : {w : World State Task} → Reach (page id) w → IsSampling w
  unfolding load
  page-IsSampling r =
      Steps_inv (page id) IsSampling
        (λ w e on (on_tab, live). (
          handle-OnTab id named w.state e on_tab,
          step_weight w.state (handle id w.state e) w.tasks (handle-sampling id named w.state e)
              live,
        ))
        (λ w before behind t y at h. settle_IsSampling w before behind t y at h) r
        (refl, omega arith)

  -- What one step does to the metrics.
  abbrev pub Changed : {w v : World State Task} → Step (page id) w v → Type 0
  Changed (act w e on) = Unchanged w.state (handle id w.state e).state
  Changed (settle w before behind t y at) = Taken t y w.state (resume id w.state t y).state

  -- In any step of a reachable world of a page whose id is not empty, the metrics that the page
  -- holds, and their error, stay as they were, but for one case: on the tab of the metrics, the answer to a request
  -- of the run of the effect since the tab was chosen is taken, and they are then what it says. The
  -- answer to a request of an older run changes neither, whenever it comes.
  pub metrics_by_current :
      {w v : World State Task} → Reach (page id) w → (step : Step (page id) w v) → Changed step
  metrics_by_current reached (act w e on) = handle-metrics id w.state e
  metrics_by_current reached (settle w before behind t y at) =
      resume-Taken id w.state t y (page-IsSampling reached).0
