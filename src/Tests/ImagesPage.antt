-- ===== src/Tests/ImagesPage.antt =====
-- A run of the page `RealImages`: the images come, and one of two is deployed.
use rig_stack.Prelude.{[], ◌≡◌, refl, flag, tally}
use rig_stack.Client.Http.{ok}
use rig_stack.Controller.Images.{catalog}
use rig_stack.Runtime.{World, Reach, here, next, act, settle, after}
use rig_stack.Images.{
  State, Task, loaded, deploy, load, initial, page, enabled, handle, resume, is_deploying,
}
use rig_stack.Images.Deploying.{deploys, one_deployment}

abbrev mounted : World State Task
mounted = load initial

abbrev listed : World State Task
listed = after mounted [] (resume mounted.state loaded (ok catalog))

abbrev deploying : World State Task
deploying = after listed listed.tasks (handle listed.state (deploy 1))

deploying_run : Reach page deploying
unfolding enabled handle load resume
deploying_run =
    next (next here (settle mounted [] [] loaded (ok catalog) refl)) (act listed (deploy 1) refl)

one_deployment_example :
    flag (is_deploying deploying.state "debian-13") ≡ tally (deploys "debian-13") deploying.tasks
one_deployment_example = one_deployment "debian-13" deploying_run
