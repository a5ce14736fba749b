-- ===== src/InstanceDetail/Console/Live.antt =====
-- frontend/src/pages/real/InstanceDetail.tsx: which terminal of the console goes on.
use rig_stack.Prelude.{
  ℕ, zero, suc, String, Bool, true, false, none, List, [], ◌∷◌, All, is_some, truthy, ◌≡◌, refl,
  sym, ◌∙◌, Bool-cases, Option-cases, inl, inr,
}
use rig_stack.InstanceDetail.{Tab, overview, console, metrics, same_tab}
use rig_stack.InstanceDetail.Console.{
  Socket, connecting, opened_up, closing, closed, close, Run, State, Event, shown, choose, typed,
  opened, received, failed, hung_up, ended_closed, on_current, clean_up, close_at, run_console,
  choose_tab, handle, enabled, act, Reach, mounted, next,
}

-- A socket that has been told to close.
abbrev pub is_shut : Socket → Bool
is_shut closing = true
is_shut closed = true
is_shut _ = false

abbrev pub IsShut : Run → Type 0
IsShut r = is_shut r.socket ≡ true

abbrev pub IsLive : State → Type 0
IsLive s = (is_some s.current ≡ same_tab s.tab console) × All IsShut s.ended

close-is_shut : (k : Socket) → is_shut (close k) ≡ true
close-is_shut connecting = refl
close-is_shut opened_up = refl
close-is_shut closing = refl
close-is_shut closed = refl

same_tab-eq : (t u : Tab) → same_tab t u ≡ true → same_tab t console ≡ same_tab u console
same_tab-eq overview overview e = refl
same_tab-eq console console e = refl
same_tab-eq metrics metrics e = refl
same_tab-eq overview console e = cc
same_tab-eq overview metrics e = cc
same_tab-eq console overview e = cc
same_tab-eq console metrics e = cc
same_tab-eq metrics overview e = cc
same_tab-eq metrics console e = cc

on_current-IsLive : (f : Run → Run) (s : State) → IsLive s → IsLive (on_current f s)
on_current-IsLive f s (h, shut) = elim (Option-cases s.current) [
  | inl e ↦ rw e (rw e at h, shut)
  | inr (r, e) ↦ rw e (rw e at h, shut)
]

clean_up-lem :
    (s : State)
    → All IsShut s.ended
    → ((clean_up s).current ≡ none) × All IsShut (clean_up s).ended × ((clean_up s).ready ≡ s.ready)
unfolding clean_up
clean_up-lem s shut = elim (Option-cases s.current) [
  | inl e ↦ rw (clean_up, e) (e, shut, refl)
  | inr (r, e) ↦ rw (clean_up, e) (refl, (close-is_shut r.socket, shut), refl)
]

close_at-IsShut : (k : ℕ) (rs : List Run) → All IsShut rs → All IsShut (close_at k rs)
unfolding close_at
close_at-IsShut zero [] h = tt
close_at-IsShut (suc k) [] h = tt
close_at-IsShut zero (r ∷ rs) (own, h) = (refl, h)
close_at-IsShut (suc k) (r ∷ rs) (own, h) = (own, close_at-IsShut k rs h)

module _ (proto host id : String) (there : truthy id ≡ true) where
  run_console-IsLive :
      (s : State)
      → s.ready ≡ true
      → s.current ≡ none
      → All IsShut s.ended
      → IsLive (run_console proto host id s)
  unfolding run_console
  run_console-IsLive s ready gone shut = elim (Bool-cases (same_tab s.tab console)) [
    | inl c ↦ rw (run_console, c, ready, there) (sym c, shut)
    | inr c ↦ rw (run_console, c) (rw (gone, c) refl, shut)
  ]

  choose_tab-IsLive :
      (t : Tab) (s : State) → s.ready ≡ true → IsLive s → IsLive (choose_tab proto host id t s)
  unfolding choose_tab
  choose_tab-IsLive t s ready (h, shut) = elim (Bool-cases (same_tab t s.tab)) [
    | inl e ↦ rw (choose_tab, e) (h, shut)
    | inr e ↦
        let (gone, all_shut, same) = clean_up-lem s shut in
        rw (choose_tab, e)
          (run_console-IsLive (record (clean_up s) { tab = t }) (same ∙ ready) gone all_shut)
  ]

  handle-IsLive :
      (s : State) (e : Event)
      → enabled proto host id s e ≡ true
      → IsLive s
      → IsLive (handle proto host id s e)
  unfolding handle enabled
  handle-IsLive s (shown b) on h = h
  handle-IsLive s (choose t) on h = choose_tab-IsLive t s on h
  handle-IsLive s (typed text) on h = on_current-IsLive _ s h
  handle-IsLive s opened on h = on_current-IsLive _ s h
  handle-IsLive s (received text) on h = on_current-IsLive _ s h
  handle-IsLive s failed on h = on_current-IsLive _ s h
  handle-IsLive s hung_up on h = on_current-IsLive _ s h
  handle-IsLive s (ended_closed k) on (h, shut) = (h, close_at-IsShut k s.ended shut)

  -- For an id that is not empty, in every state of the console that the page can come to, a terminal
  -- goes on exactly if its tab is chosen, also when the page no longer shows its instance, and there
  -- is one; the socket of each other that there was has been told to close.
  pub console-IsLive : {s : State} → Reach proto host id s → IsLive s
  console-IsLive mounted = (refl, tt)
  console-IsLive (next r (act s e on)) = handle-IsLive s e on (console-IsLive r)
