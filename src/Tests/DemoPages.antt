-- ===== src/Tests/DemoPages.antt =====
-- Runs of the demo page of instances, and calls of the other demo pages.
use mathlib.Core.List.{Memᴰ}
use rig_stack.Prelude.{String, refl}
use rig_stack.Prelude.Text.{trim}
use rig_stack.Runtime.{World, Steps, here, next, act, after}
use rig_stack.Demo.Types.{Instance}
use rig_stack.Demo.Instances.{
  State, Task, initial, modal_opened, name_typed, submitted, handle, create_vm, enabled, page,
  new_vm, Form, Flavor,
}
use rig_stack.Demo.Instances.Power.{IsSound, demo-IsSound}
use rig_stack.Runtime.{update}

abbrev lower : String → String
lower t = t

abbrev mounted : World State Task
mounted = update initial

abbrev opened : World State Task
opened = after mounted mounted.tasks (handle mounted.state modal_opened)

abbrev named : World State Task
named = after opened opened.tasks (handle opened.state (name_typed "web-03"))

abbrev added : World State Task
added = after named named.tasks (handle named.state (submitted "1770000000000" "2026-02-02"))

added_run : Steps (page lower) mounted added
unfolding enabled handle trim
added_run =
    next (next (next here (act mounted modal_opened refl)) (act opened (name_typed "web-03") refl))
      (act named (submitted "1770000000000" "2026-02-02") refl)

abbrev form : Form
form = record { name = "web-03"; os = "Ubuntu 24.04 LTS"; flavor = 0; disk = "20" }

abbrev micro : Flavor
micro = record { label = "Micro"; vcpus = 1; ram = "512 MB"; price = "free" }

abbrev newest : Instance
newest = new_vm "1770000000000" "2026-02-02" form micro

there : Memᴰ newest added.state.vms
unfolding handle create_vm trim
there = Memᴰ.head refl

demo-IsSound_example : IsSound added.state
demo-IsSound_example = demo-IsSound lower added_run
