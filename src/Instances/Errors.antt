-- ===== src/Instances/Errors.antt =====
-- What becomes of an error that the page `RealInstances` records.
use rig_stack.Prelude.{
  String, true, Option, none, some, List, ◌≡◌, ◌≢◌, truthy, arith, sym, ◌∙◌, ◌⊎◌,
}
use rig_stack.Client.Http.{ok, err}
use rig_stack.Client.Types.{ApiInstance, ApiVpc}
use rig_stack.Runtime.{World, Steps}
use rig_stack.Runtime.Invariant.{Steps_inv}
use rig_stack.Instances.{State, Event, Task, Reply, resume, loaded, tick}
use rig_stack.Instances.Page.{page, handle, enabled}
use rig_stack.Instances.View.{view, failed, shown, shown_page}

handle-error :
    (lower : String → String) (s : State) (e : Event) → (handle lower s e).state.error ≡ s.error
unfolding handle
handle-error lower s e = ground arith

resume-error :
    (s : State) (t : Task) (r : Reply t) → s.error ≢ none → (resume s t r).state.error ≢ none
unfolding resume
resume-error s loaded (ok v) h = h
resume-error s loaded (err m) h = λ e. cc
resume-error s _ r h = ground arith

-- No event and no answer of the controller ever clears a recorded error: where one is recorded,
-- one is recorded in every world that follows.
pub error_never_cleared :
    (lower : String → String) {w v : World State Task}
    → Steps (page lower) w v
    → w.state.error ≢ none
    → v.state.error ≢ none
error_never_cleared lower r =
    Steps_inv (page lower) (λ w. w.state.error ≢ none)
      (λ w e on h same. h (sym (handle-error lower w.state e) ∙ same))
      (λ w before behind t y at h. resume-error w.state t y h) r

-- Where the page has recorded an error with a message that is not empty, a load that succeeds is
-- not seen: the message stays in the place of the page.
pub reload_hidden :
    (lower : String → String) (s : State) (m : String) (fresh : Option (List ApiInstance))
    (vpcs : Option (List ApiVpc))
    → s.error ≡ some m
    → truthy m ≡ true
    → view lower (resume s loaded (ok (fresh, vpcs))).state ≡ failed m
unfolding resume view
reload_hidden lower s m fresh vpcs h t = rw (h, t)

-- The elements of the page that cause events, all but the timer, are there only where the page is
-- rendered.
pub enabled-shown :
    (lower : String → String) (s : State) (e : Event)
    → enabled lower s e ≡ true
    → (e ≡ tick) ⊎ (view lower s ≡ shown (shown_page lower s))
unfolding enabled view
enabled-shown lower s e on = ground arith
