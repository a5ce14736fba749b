-- ===== src/Instances/Table.antt =====
-- The table of `RealInstances`: which rows it has, and what their buttons do.
use rig_stack.Prelude.{
  ℕ, String, ◌==◌, true, false, Option, none, some, List, [], ◌∷◌, ◌≡◌, ◌≢◌, ◌↔◌, ◌⊎◌, refl, ap,
  keep, suc, ◌∙◌, mem-keep, and-true, Bool-cases, get_elem?, length, length-map, arith, eq_iff, inl,
  inr,
}
use rig_stack.Prelude.Text.{includes, includes_nil}
use mathlib.Core.List.{Memᴰ}
use mathlib.Core.Path.{fun_ext}
use rig_stack.Client.Types.{ApiInstance}
use rig_stack.Client.Endpoints.{instances_start, instances_stop}
use rig_stack.Instances.{
  State, Filter, every, running, stopped, power, handle_start, handle_stop, in_transition,
}
use rig_stack.Instances.Page.{filtered, matches_filter, enabled, handle, power_button, row_enabled}
use rig_stack.Instances.View.{row, Shown, shown_page}

-- The count that the option of a filter shows.
abbrev pub option_count : Filter → Shown → ℕ
option_count every p = p.all_count
option_count running p = p.running_count
option_count stopped p = p.stopped_count

matches_filter_iff :
    (f : Filter) (i : ApiInstance)
    → (matches_filter f i ≡ true) ↔ (
        (f ≡ every)
        ⊎ ((f ≡ running) × (i.status ≡ "running"))
        ⊎ ((f ≡ stopped) × (i.status ≡ "stopped")))
matches_filter_iff every i = ground arith
matches_filter_iff running i = ground (arith, eq_iff i.status "running")
matches_filter_iff stopped i = ground (arith, eq_iff i.status "stopped")

press :
    (row : Option ApiInstance) (s : State)
    → row_enabled row ≡ true
    → (i : ApiInstance) × (row ≡ some i)
      × (in_transition i ≡ false)
      × ((power_button row s).state ≡ s)
      × (((i.status ≡ "running") × ((power_button row s).sent ≡ instances_stop i.id ∷ []))
          ⊎ ((i.status ≢ "running") × ((power_button row s).sent ≡ instances_start i.id ∷ [])))
unfolding handle_start handle_stop
press none s on = cc
press (some i) s on = elim (Bool-cases (i.status == "running")) [
  | inl e ↦ (i, refl, ground arith, rw e, inl ((eq_iff _ _).0 e, rw e))
  | inr e ↦ (i, refl, ground arith, rw e, inr (ground (arith, eq_iff i.status "running"), rw e))
]

length-keep_every : (xs : List ApiInstance) → length (keep (matches_filter every) xs) ≡ length xs
length-keep_every [] = refl
length-keep_every (x ∷ xs) = ap suc (length-keep_every xs)

module _ (lower : String → String) where
  -- The empty search text leaves the choice to the filter.
  filtered_of_no_search :
      (s : State)
      → lower "" ≡ ""
      → s.search ≡ ""
      → filtered lower s ≡ keep (matches_filter s.filter) s.instances
  unfolding filtered
  filtered_of_no_search s empty h =
      ap (λ p. keep p s.instances) (fun_ext (λ i. rw (h, empty, includes_nil (lower i.name))))

  option_rows :
      (f : Filter) (s : State)
      → length (keep (matches_filter f) s.instances) ≡ option_count f (shown_page lower s)
  unfolding shown_page
  option_rows every s = length-keep_every s.instances
  option_rows running s = refl
  option_rows stopped s = refl

  -- With an empty search text, where lower case leaves the empty text empty, the table has as many rows as the option of the chosen filter counts.
  pub rows_counted :
      (s : State)
      → lower "" ≡ ""
      → s.search ≡ ""
      → length (shown_page lower s).rows ≡ option_count s.filter (shown_page lower s)
  unfolding shown_page
  rows_counted s empty h =
      length-map row (filtered lower s)
      ∙ ap length (filtered_of_no_search s empty h)
      ∙ option_rows s.filter s

  -- The table shows exactly those instances of the list whose name, in lower case, contains the
  -- search text, in lower case, and whose status is that of the filter.
  pub mem-filtered :
      (s : State) (i : ApiInstance)
      → Memᴰ i (filtered lower s) ↔ (
          Memᴰ i s.instances
          × (includes (lower i.name) (lower s.search) ≡ true)
          × ((s.filter ≡ every)
              ⊎ ((s.filter ≡ running) × (i.status ≡ "running"))
              ⊎ ((s.filter ≡ stopped) × (i.status ≡ "stopped"))))
  unfolding filtered
  mem-filtered s i = (
    (λ m.
        let (there, good) = (mem-keep _ i s.instances).0 m in
        let (found, fits) = and-true _ _ good in
        (there, found, (matches_filter_iff s.filter i).0 fits)),
    (λ (there, found, fits).
        (mem-keep _ i s.instances).1 (there, rw (found, (matches_filter_iff s.filter i).1 fits))),
  )

  -- An enabled button of a row sends one request, for the instance of that row, which is not in
  -- transition: a stop if it is running, a start if not. The state of the page does not change.
  pub power_lem :
      (s : State) (k : ℕ)
      → enabled lower s (power k) ≡ true
      → (i : ApiInstance) × (get_elem? (filtered lower s) k ≡ some i)
        × (in_transition i ≡ false)
        × ((handle lower s (power k)).state ≡ s)
        × (((i.status ≡ "running") × ((handle lower s (power k)).sent ≡ instances_stop i.id ∷ []))
            ⊎ ((i.status ≢ "running")
                × ((handle lower s (power k)).sent ≡ instances_start i.id ∷ [])))
  unfolding enabled handle
  power_lem s k on = press (get_elem? (filtered lower s) k) s (and-true _ _ on).1
