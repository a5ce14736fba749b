-- ===== src/Controller/Service/Images.antt =====
-- controller/internal/service/image.go and controller/internal/service/node.go: the deployment of an
-- image to the nodes, and the removal of a node.
pub mod Deploying
use rig_stack.Prelude.{String, ◌<>◌, ◌==◌, Option, none, some, List, [], ◌∷◌, map, if◌then◌else◌}
use rig_stack.Client.Types.{ApiImage}
use rig_stack.Client.Http.{Result, ok, err, str, obj, field, end}
use rig_stack.Controller.Tables.{NodeRow, Env}
use rig_stack.Controller.Store.Nodes as Rows
use rig_stack.Controller.Dispatcher.{Command, Queues, enqueue}
use rig_stack.Controller.Images.{catalog}
use rig_stack.Controller.Service.{System}

-- The loop of `ImageService.Get`.
unfoldable pub find_image : String → List ApiImage → Option ApiImage
find_image id [] = none
find_image id (i ∷ is) = if i.id == id then some i else find_image id is

abbrev pub download_image : ApiImage → Command
download_image img = record {
  kind = "download_image";
  payload = obj (field "name" (str img.id) (field "url" (str img.url) end));
}

-- The loop of `Deploy` over the nodes, on the queues.
unfoldable pub enqueue_all : Command → List NodeRow → Queues → Queues
enqueue_all cmd [] queues = queues
enqueue_all cmd (n ∷ ns) queues = enqueue_all cmd ns (enqueue n.id cmd queues)

-- `Deploy`: the names of the nodes, and the system.
unfoldable pub deploy : Env → String → System → Result (List String) × System
unfolding find_image enqueue_all
deploy env id sys = elim (find_image id catalog) [
  | none ↦ (err ("image \"" <> id <> "\" not found"), sys)
  | some img ↦ elim (Rows.get_healthy env sys.db) [
    | [] ↦ (err "no healthy nodes available", sys)
    | n ∷ ns ↦ (
      ok (map (λ (m : NodeRow). m.name) (n ∷ ns)),
      record sys { queues = enqueue_all (download_image img) (n ∷ ns) sys.queues },
    )
  ]
]

-- `NodeService.Delete`.
unfoldable pub delete_node : Env → String → System → Result (Unit {0}) × System
delete_node env id sys = elim (Rows.delete id sys.db) [
  | none ↦ (err env.refused, sys)
  | some db ↦ (ok tt, record sys { db = db })
]
