-- ===== src/Controller/Scheduler.antt =====
-- controller/internal/scheduler/scheduler.go: the choice of a node.
pub mod Choice
use rig_stack.Prelude.{ℕ, String, ◌<>◌, Option, none, some, List, [], ◌∷◌, ltb, if◌then◌else◌}
use rig_stack.Prelude.Text.{decimal}
use rig_stack.Client.Http.{Result, ok, err}
use rig_stack.Controller.Tables.{NodeRow, Db, Env}
use rig_stack.Controller.Store.Nodes.{get_healthy}

-- `best == nil || n.RAMFree > best.RAMFree`, and the node that is then the best.
abbrev pub better : NodeRow → Option NodeRow → Option NodeRow
better n none = some n
better n (some best) = if ltb best.ram_free n.ram_free then some n else some best

-- The loop of `PickNode`, with `best` as its state.
unfoldable pub pick_from : ℕ → List NodeRow → Option NodeRow → Option NodeRow
pick_from min [] best = best
pick_from min (n ∷ ns) best = pick_from min ns (if ltb n.ram_free min then best else better n best)

abbrev pub too_small : ℕ → String
too_small min = "no node with enough resources (need " <> decimal min <> " bytes RAM free)"

-- `PickNode`.
unfoldable pub pick_node : Env → ℕ → Db → Result NodeRow
unfolding pick_from get_healthy
pick_node env min db = elim (get_healthy env db) [
  | [] ↦ err "no healthy nodes available"
  | n ∷ ns ↦ elim (pick_from min (n ∷ ns) none) [ some best ↦ ok best | none ↦ err (too_small min) ]
]
