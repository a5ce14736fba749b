-- ===== src/Runtime/Invariant.antt =====
-- The rule of invariants for a page, and what a step does to the weight of the waiting tasks.
use mathlib.Core.List.{Memᴰ}
use rig_stack.Prelude.{[], refl, ℕ, ◌+◌, true, List, ◌∷◌, ◌++◌, ◌≡◌, arith, tally, tally-append}
use rig_stack.Runtime.{World, Component, after, act, settle, Steps, here, next}

-- A property that the mounted page has and that every step keeps holds in every reachable world.
pub Steps_inv {κ} :
    (c : Component) (P : World c.State c.Task → Type κ)
    → ((w : World c.State c.Task) (e : c.Event)
        → c.enabled w.state e ≡ true
        → P w
        → P (after w w.tasks (c.handle w.state e)))
    → ((w : World c.State c.Task) (before behind : List c.Task) (t : c.Task) (r : c.Reply t)
        → w.tasks ≡ before ++ t ∷ behind
        → P w
        → P (after w (before ++ behind) (c.resume w.state t r)))
    → {w v : World c.State c.Task} → Steps c w v
    → P w
    → P v
Steps_inv c P acts settles here p = p
Steps_inv c P acts settles (next r (act w e on)) p = acts w e on (Steps_inv c P acts settles r p)
Steps_inv c P acts settles (next r (settle w before behind t y at)) p =
    settles w before behind t y at (Steps_inv c P acts settles r p)

module _ {T : Type 0} (weight : T → ℕ) where
  -- Taking one task out of those waiting takes its weight away.
  pub tally-remove :
      (tasks before behind : List T) (t : T)
      → tasks ≡ before ++ t ∷ behind
      → tally weight tasks ≡ weight t + tally weight (before ++ behind)
  tally-remove tasks before behind t at =
      rw at
        (omega (arith, tally-append weight before (t ∷ behind), tally-append weight before behind))

-- A continuation that is picked up was waiting.
pub mem-between :
    {T : Type 0} (t : T) (tasks before behind : List T)
    → tasks ≡ before ++ t ∷ behind
    → Memᴰ t tasks
mem-between t tasks [] behind at = rw at (Memᴰ.head refl)
mem-between t tasks (x ∷ before) behind at =
    rw at (Memᴰ.tail (mem-between t (before ++ t ∷ behind) before behind refl))
