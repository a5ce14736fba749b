-- ===== src/Images/Deploying.antt =====
-- What the page `RealImages` has in flight for each image.
use rig_stack.Prelude.{
  ℕ, ◌+◌, ◌≤◌, String, ◌==◌, true, ◌≡◌, ◌++◌, refl, arith, flag, tally, tally-append, eq_iff,
  if◌then◌else◌, Option, none, some, get_elem?, and-true,
}
use rig_stack.Client.Types.{ApiImage}
use rig_stack.Runtime.{World, Reach}
use rig_stack.Runtime.Invariant.{Steps_inv, tally-remove}
use rig_stack.Images.{
  State, Event, deploy, Task, loaded, answered, Reply, page, enabled, handle, resume, load,
  is_deploying, button_enabled, press_button,
}

module _ (id : String) where
  -- A deployment of the image of that id.
  abbrev pub deploys : Task → ℕ
  deploys loaded = 0
  deploys (answered j) = if j == id then 1 else 0

  press-deploys :
      (img : Option ApiImage) (s : State)
      → button_enabled img s ≡ true
      → flag (is_deploying (press_button img s).state id)
        ≡ flag (is_deploying s id) + tally deploys (press_button img s).tasks
  unfolding handle
  press-deploys none s on = cc
  press-deploys (some img) s on = ground (arith, eq_iff img.id id)

  handle-deploys :
      (s : State) (e : Event)
      → enabled s e ≡ true
      → flag (is_deploying (handle s e).state id)
        ≡ flag (is_deploying s id) + tally deploys (handle s e).tasks
  unfolding enabled handle
  handle-deploys s (deploy k) on = press-deploys (get_elem? s.images k) s (and-true _ _ on).1

  resume-deploys :
      (s : State) (t : Task) (r : Reply t)
      → deploys t ≤ flag (is_deploying s id)
      → flag (is_deploying (resume s t r).state id) + deploys t
        ≡ flag (is_deploying s id) + tally deploys (resume s t r).tasks
  unfolding resume
  resume-deploys s loaded r h = ground arith
  resume-deploys s (answered j) r h = ground arith

  -- In every reachable world the button of an image is disabled exactly while a deployment of that
  -- image is in flight, of which there is never a second one; deployments of other images neither
  -- disable nor enable it.
  pub one_deployment :
      {w : World State Task} → Reach page w → flag (is_deploying w.state id) ≡ tally deploys w.tasks
  unfolding load
  one_deployment r =
      Steps_inv page (λ w. flag (is_deploying w.state id) ≡ tally deploys w.tasks)
        (λ w e on h. omega (
          arith,
          handle-deploys w.state e on,
          tally-append deploys w.tasks (handle w.state e).tasks,
        ))
        (λ w before behind t y at h. omega (
          arith,
          tally-remove deploys w.tasks before behind t at,
          resume-deploys w.state t y,
          tally-append deploys (before ++ behind) (resume w.state t y).tasks,
        ))
        r refl
