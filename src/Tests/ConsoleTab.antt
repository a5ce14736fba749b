-- ===== src/Tests/ConsoleTab.antt =====
-- A run of the console tab: the page shows its instance, the tab is chosen, the socket opens, a key is typed, and the tab is left.
use rig_stack.Prelude.{true, [], ◌∷◌, ◌≡◌, refl, map}
use rig_stack.InstanceDetail.{overview, console}
use rig_stack.InstanceDetail.Console.{
  State, Run, initial, shown, choose, opened, typed, handle, enabled, Reach, mounted, next, act,
  choose_tab, run_console, clean_up,
}
use rig_stack.InstanceDetail.Console.Live.{IsLive, console-IsLive}

abbrev listed : State
listed = handle "https:" "cloud.local" "vm-1" initial (shown true)

abbrev chosen : State
chosen = handle "https:" "cloud.local" "vm-1" listed (choose console)

abbrev connected : State
connected = handle "https:" "cloud.local" "vm-1" chosen opened

abbrev used : State
used = handle "https:" "cloud.local" "vm-1" connected (typed "l")

abbrev left : State
left = handle "https:" "cloud.local" "vm-1" used (choose overview)

left_run : Reach "https:" "cloud.local" "vm-1" left
unfolding handle enabled choose_tab run_console clean_up
left_run =
    next
      (next
        (next
          (next (next mounted (act initial (shown true) refl)) (act listed (choose console) refl))
          (act chosen opened refl))
        (act connected (typed "l") refl))
      (act used (choose overview) refl)

-- The key was sent, as the socket was open.
sent_key : map (λ (r : Run). r.sent) left.ended ≡ ("l" ∷ []) ∷ []
unfolding handle choose_tab run_console clean_up
sent_key = refl

console-IsLive_example : IsLive left
console-IsLive_example = console-IsLive "https:" "cloud.local" "vm-1" refl left_run
