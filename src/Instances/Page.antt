-- ===== src/Instances/Page.antt =====
-- frontend/src/pages/real/Instances.tsx: the elements of the page `RealInstances` that cause events,
-- when they are there and enabled, and the page as a component. `lower` is
-- `String.prototype.toLowerCase`, whose tables are those of the browser.
use rig_stack.Prelude.{
  String, ◌==◌, Bool, true, false, ◌&&◌, ◌||◌, not, Option, none, some, List, any, keep, get_elem?,
  is_some, is_empty, shows_error, if◌then◌else◌,
}
use rig_stack.Prelude.Text.{includes}
use rig_stack.Client.Types.{ApiInstance, ApiVpc}
use rig_stack.Runtime.{Out, update, Component}
use rig_stack.Instances.{
  State, Filter, every, running, stopped, Event, Task, Reply, initial, flavors, os_options,
  OsOption, in_transition, is_incomplete, load, handle_start, handle_stop, confirm, handle_create,
  resume, tick, refresh, open_modal, close_modal, submit, cancel_delete, confirm_delete, set_search,
  set_name, set_vpc, set_os, set_ssh_pubkey, set_filter, set_flavor, power, ask_delete,
}

abbrev pub matches_filter : Filter → ApiInstance → Bool
matches_filter every i = true
matches_filter running i = i.status == "running"
matches_filter stopped i = i.status == "stopped"

-- Neither of the early returns of the page is taken.
abbrev pub is_page : State → Bool
is_page s = not (s.loading && is_empty s.instances) && not (shows_error s.error)

-- The buttons of a row: `none` if there is no such row.
abbrev pub power_button : Option ApiInstance → State → Out State Task
power_button none s = update s
power_button (some i) s = if i.status == "running" then handle_stop i.id s else handle_start i.id s

abbrev pub delete_button : Option ApiInstance → State → Out State Task
delete_button none s = update s
delete_button (some i) s = update (record s { delete_target = some i })

abbrev pub row_enabled : Option ApiInstance → Bool
row_enabled none = false
row_enabled (some i) = not (in_transition i)

module _ (lower : String → String) where
  abbrev pub matches_search : String → ApiInstance → Bool
  matches_search search i = includes (lower i.name) (lower search)

  -- The rows of the table.
  unfoldable pub filtered : State → List ApiInstance
  filtered s = keep (λ i. matches_search s.search i && matches_filter s.filter i) s.instances

  unfoldable pub enabled : State → Event → Bool
  unfolding filtered
  enabled s tick = true
  enabled s (set_name t) = is_page s && s.show_modal
  enabled s (set_vpc v) =
      is_page s && s.show_modal && (v == "" || any (λ (x : ApiVpc). x.id == v) s.vpcs)
  enabled s (set_os v) =
      is_page s && s.show_modal && any (λ (o : OsOption). o.value == v) os_options
  enabled s (set_flavor i) = is_page s && s.show_modal && is_some (get_elem? flavors i)
  enabled s (set_ssh_pubkey t) = is_page s && s.show_modal
  enabled s close_modal = is_page s && s.show_modal
  enabled s submit = is_page s && s.show_modal && not (is_incomplete s.form || s.creating)
  enabled s (power k) = is_page s && row_enabled (get_elem? (filtered s) k)
  enabled s (ask_delete k) = is_page s && row_enabled (get_elem? (filtered s) k)
  enabled s cancel_delete = is_page s && is_some s.delete_target
  enabled s confirm_delete = is_page s && is_some s.delete_target
  enabled s _ = is_page s

  unfoldable pub handle : State → Event → Out State Task
  unfolding filtered load handle_start handle_stop confirm handle_create
  handle s tick = load s
  handle s refresh = load s
  handle s open_modal = update (record s { show_modal = true })
  handle s close_modal = update (record s { show_modal = false })
  handle s submit = handle_create s
  handle s cancel_delete = update (record s { delete_target = none })
  handle s confirm_delete = confirm s
  handle s (set_search t) = update (record s { search = t })
  handle s (set_name t) = update (record s { form = record (s.form) { name = t } })
  handle s (set_vpc v) = update (record s { form = record (s.form) { vpc_id = v } })
  handle s (set_os v) = update (record s { form = record (s.form) { os = v } })
  handle s (set_ssh_pubkey t) = update (record s { form = record (s.form) { ssh_pubkey = t } })
  handle s (set_filter f) = update (record s { filter = f })
  handle s (set_flavor i) = update (record s { form = record (s.form) { flavor = i } })
  handle s (power k) = power_button (get_elem? (filtered s) k) s
  handle s (ask_delete k) = delete_button (get_elem? (filtered s) k) s

  abbrev pub page : Component
  page = record {
    State = State;
    Event = Event;
    Task = Task;
    Reply = Reply;
    mount = load initial;
    enabled = enabled;
    handle = handle;
    resume = resume;
  }
