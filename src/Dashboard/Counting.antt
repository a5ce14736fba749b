-- ===== src/Dashboard/Counting.antt =====
-- What the numbers of `RealDashboard` add up to, and what becomes of its state.
use rig_stack.Prelude.{
  ℕ, zero, suc, ◌+◌, ◌≤◌, String, ◌==◌, false, none, List, [], ◌∷◌, ◌≡◌, ◌≢◌, refl, arith, length,
  take, length-keep-le, length-map, eq_iff, sym, flag, Bool-cases, Option-cases, truthy, ◌∙◌, inl,
  inr,
}
use rig_stack.Client.Http.{ok, err}
use rig_stack.Client.Types.{ApiInstance, ApiNode}
use rig_stack.Runtime.{World, Steps}
use rig_stack.Runtime.Invariant.{Steps_inv}
use rig_stack.Dashboard.{
  State, Event, tick, Task, loaded, Reply, page, handle, resume, shown_page, with_status,
  recent_row, node_row, loading, view,
}

with_status-cons :
    (t : String) (i : ApiInstance) (is : List ApiInstance)
    → with_status t (i ∷ is) ≡ flag (i.status == t) + with_status t is
with_status-cons t i is = elim (Bool-cases (i.status == t)) [
  | inl e ↦ rw e (omega arith)
  | inr e ↦ rw e (omega arith)
]

-- A status is at most one of the three.
one_status :
    (s : String) → flag (s == "running") + flag (s == "stopped") + flag (s == "pending") ≤ 1
one_status s = elim (Bool-cases (s == "running")) [
  | inl e ↦ rw ((eq_iff s "running").0 e) (omega arith)
  | inr e ↦ elim (Bool-cases (s == "stopped")) [
    | inl f ↦ rw ((eq_iff s "stopped").0 f) (omega arith)
    | inr f ↦ rw (e, f) (ground arith)
  ]
]

with_status-disjoint :
    (is : List ApiInstance)
    → with_status "running" is + with_status "stopped" is + with_status "pending" is ≤ length is
with_status-disjoint [] = omega arith
with_status-disjoint (i ∷ is) = omega (
  arith,
  with_status-disjoint is,
  one_status i.status,
  with_status-cons "running" i is,
  with_status-cons "stopped" i is,
  with_status-cons "pending" i is,
)

length-take :
    (n : ℕ) (is : List ApiInstance) → (length (take n is) ≤ n) × (length (take n is) ≤ length is)
length-take zero is = (omega arith, omega arith)
length-take (suc n) [] = (omega arith, omega arith)
length-take (suc n) (i ∷ is) = omega (arith, length-take n is)

-- The three counts of instances count each instance at most once, the two of nodes each node
-- exactly once, and of the instances at most six are shown.
pub counts_bounded :
    (s : State)
    → ((shown_page s).running + (shown_page s).stopped + (shown_page s).pending
        ≤ (shown_page s).total)
      × ((shown_page s).healthy + (shown_page s).unreachable ≡ length (shown_page s).nodes)
      × (length (shown_page s).recent ≤ 6)
unfolding shown_page
counts_bounded s = (
  with_status-disjoint s.instances,
  omega (
    arith,
    length-keep-le (λ (n : ApiNode). n.status == "healthy") s.nodes,
    length-map node_row s.nodes,
  ),
  omega (arith, length-take 6 s.instances, length-map recent_row (take 6 s.instances)),
)

settle-state :
    (s : State) (t : Task) (r : Reply t)
    → (s.loading ≡ false → (resume s t r).state.loading ≡ false)
      × (s.error ≢ none → (resume s t r).state.error ≢ none)
unfolding resume
settle-state s loaded (ok v) = ((λ h. refl), (λ h. h))
settle-state s loaded (err m) = ((λ h. refl), (λ h e. cc))

act-state :
    (s : State) (e : Event)
    → ((handle s e).state.loading ≡ s.loading) × ((handle s e).state.error ≡ s.error)
unfolding handle
act-state s tick = (refl, refl)

stays_open :
    {w v : World State Task} → Steps page w v → w.state.loading ≡ false → v.state.loading ≡ false
stays_open r =
    Steps_inv page (λ w. w.state.loading ≡ false) (λ w e on h. (act-state w.state e).0 ∙ h)
      (λ w before behind t y at h. (settle-state w.state t y).0 h) r

view-open : (s : State) → s.loading ≡ false → view s ≢ loading
unfolding view
view-open s h = elim (Option-cases s.error) [
  | inl e ↦ λ q. cc (rw (h, e) at q)
  | inr (m, e) ↦ elim (Bool-cases (truthy m)) [
    | inl t ↦ λ q. cc (rw (h, e, t) at q)
    | inr t ↦ λ q. cc (rw (h, e, t) at q)
  ]
]

-- Once the dashboard is no longer loading, after its first answer, it never shows again that it
-- loads.
pub loading_shown_once :
    {w v : World State Task} → Steps page w v → w.state.loading ≡ false → view v.state ≢ loading
loading_shown_once {w} {v} r h = view-open v.state (stays_open r h)

-- Once the dashboard has recorded an error, one is recorded in every world that follows.
pub dashboard_error_never_cleared :
    {w v : World State Task} → Steps page w v → w.state.error ≢ none → v.state.error ≢ none
dashboard_error_never_cleared r =
    Steps_inv page (λ w. w.state.error ≢ none)
      (λ w e on h same. h (sym (act-state w.state e).1 ∙ same))
      (λ w before behind t y at h. (settle-state w.state t y).1 h) r
