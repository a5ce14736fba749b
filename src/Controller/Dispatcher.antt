-- ===== src/Controller/Dispatcher.antt =====
-- controller/internal/dispatcher/dispatcher.go: the queues of commands. The mutex makes each call
-- one step.
pub mod Delivery
use rig_stack.Prelude.{String, ◌==◌, List, [], ◌∷◌, ◌++◌, Option, keep, not, if◌then◌else◌}
use rig_stack.Client.Http.{Json}

-- `pb.Command`; the payload is the value whose text is sent.
pub record Command : Type 0 where
  pub kind : String
  pub payload : Json

-- `queues`: the commands under the keys.
abbrev pub Queues : Type 0
Queues = List (String × List Command)

-- `d.queues[nodeID]`, which is empty for a key that is not there.
unfoldable pub pending : String → Queues → List Command
pending id [] = []
pending id ((key, cmds) ∷ rest) = if key == id then cmds else pending id rest

-- `Enqueue`.
unfoldable pub enqueue : String → Command → Queues → Queues
enqueue id cmd [] = (id, cmd ∷ []) ∷ []
enqueue id cmd ((key, cmds) ∷ rest) =
    if key == id then (key, cmds ++ cmd ∷ []) ∷ rest else (key, cmds) ∷ enqueue id cmd rest

unfoldable pub remove_key : String → Queues → Queues
remove_key id [] = []
remove_key id ((key, cmds) ∷ rest) =
    let others = remove_key id rest in if key == id then others else (key, cmds) ∷ others

-- `Drain`: the commands, and the queues.
unfoldable pub drain : String → Queues → List Command × Queues
unfolding pending remove_key
drain id queues = (pending id queues, remove_key id queues)
