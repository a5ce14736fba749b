-- ===== src/Tests/NetworkPage.antt =====
-- A run of the page `RealNetwork`: the list comes, and the dialog is opened, filled in and
-- submitted.
use rig_stack.Prelude.{true, some, [], ◌∷◌, refl}
use rig_stack.Prelude.Text.{trim}
use rig_stack.Client.Http.{ok, err}
use rig_stack.Client.Types.{ApiVpc}
use rig_stack.Runtime.{World, Reach, Steps, here, next, act, settle, after}
use rig_stack.ViewMode.{Storage}
use rig_stack.Network.{
  State, Task, loaded, deleted, remove, open_modal, set_name, submit, load, initial, page, enabled,
  handle, resume,
}
use rig_stack.Network.Requests.{IsTracked, page-IsTracked}

abbrev vpc : ApiVpc
vpc = record {
  id = "vpc-1";
  name = "main";
  cidr = "10.0.1.0/24";
  status = "available";
  created_at = "2026-01-01T00:00:00Z";
}

abbrev kept : Storage
kept = ("rigstack:view:network", "list") ∷ []

abbrev mounted : World State Task
mounted = load (initial kept)

abbrev listed : World State Task
listed = after mounted [] (resume mounted.state loaded (ok (some (vpc ∷ []))))

abbrev opened : World State Task
opened = after listed listed.tasks (handle listed.state open_modal)

abbrev named : World State Task
named = after opened opened.tasks (handle opened.state (set_name "web"))

abbrev submitted : World State Task
submitted = after named named.tasks (handle named.state submit)

submitted_run : Reach (page kept) submitted
unfolding enabled handle load resume initial trim
submitted_run =
    next
      (next
        (next (next here (settle mounted [] [] loaded (ok (some (vpc ∷ []))) refl))
          (act listed open_modal refl))
        (act opened (set_name "web") refl))
      (act named submit refl)

page-IsTracked_example : IsTracked submitted
page-IsTracked_example = page-IsTracked kept submitted_run

-- The VPC is removed, the load that follows fails, and a second removal is answered after it.
abbrev removed : World State Task
removed = after listed listed.tasks (handle listed.state (remove 0 true))

abbrev removed_again : World State Task
removed_again = after removed removed.tasks (handle removed.state (remove 0 true))

abbrev reloading : World State Task
reloading = after removed_again (deleted ∷ []) (resume removed_again.state deleted (ok tt))

abbrev broken : World State Task
broken = after reloading (deleted ∷ []) (resume reloading.state loaded (err "HTTP 500"))

abbrev retried : World State Task
retried = after broken [] (resume broken.state deleted (err "vpc not found"))

retried_run : Steps (page kept) broken retried
unfolding load resume handle initial
retried_run = next here (settle broken [] [] deleted (err "vpc not found") refl)
