-- ===== src/Controller/Service/Images/Deploying.antt =====
-- controller/internal/service/image.go: which nodes an image is sent to.
use mathlib.Core.List.{append-nil, append_assoc}
use rig_stack.Prelude.{
  String, ◌==◌, some, List, [], ◌∷◌, ◌++◌, map, keep, ◌≡◌, ◌≢◌, refl, sym, Bool-cases, inl, inr,
}
use rig_stack.Client.Types.{ApiImage}
use rig_stack.Client.Http.{ok}
use rig_stack.Controller.Tables.{NodeRow, Env}
use rig_stack.Controller.Store.Nodes.{get_healthy}
use rig_stack.Controller.Dispatcher.{Command, Queues, pending, enqueue}
use rig_stack.Controller.Dispatcher.Delivery.{pending-enqueue}
use rig_stack.Controller.Images.{catalog}
use rig_stack.Controller.Service.{System}
use rig_stack.Controller.Service.Images.{find_image, download_image, enqueue_all, deploy}

-- One command for each row of an id.
abbrev pub copies : Command → String → List NodeRow → List Command
copies cmd id ns = map (λ (n : NodeRow). cmd) (keep (λ (n : NodeRow). n.id == id) ns)

pending-enqueue_all :
    (cmd : Command) (id : String) (ns : List NodeRow) (queues : Queues)
    → pending id (enqueue_all cmd ns queues) ≡ pending id queues ++ copies cmd id ns
unfolding enqueue_all
pending-enqueue_all cmd id [] queues = sym (append-nil (pending id queues))
pending-enqueue_all cmd id (n ∷ ns) queues = elim (Bool-cases (n.id == id)) [
  | inl e ↦
      rw
        (
          pending-enqueue_all cmd id ns (enqueue n.id cmd queues),
          pending-enqueue id n.id cmd queues,
          e,
        )
        (append_assoc (pending id queues) (cmd ∷ []) (copies cmd id ns))
  | inr e ↦ rw (
    pending-enqueue_all cmd id ns (enqueue n.id cmd queues),
    pending-enqueue id n.id cmd queues,
    e,
  )
]

deploy_to :
    (env : Env) (id key : String) (img : ApiImage) (sys : System) (ns : List NodeRow)
    → find_image id catalog ≡ some img
    → get_healthy env sys.db ≡ ns
    → ns ≢ []
    → ((deploy env id sys).0 ≡ ok (map (λ (n : NodeRow). n.name) ns))
      × ((deploy env id sys).1.db ≡ sys.db)
      × (pending key (deploy env id sys).1.queues
          ≡ pending key sys.queues ++ copies (download_image img) key ns)
unfolding deploy
deploy_to env id key img sys [] found healthy some_node = absurd (some_node refl)
deploy_to env id key img sys (n ∷ ns) found healthy some_node =
    rw (deploy, found, healthy)
      (refl, refl, pending-enqueue_all (download_image img) key (n ∷ ns) sys.queues)

-- `Deploy` of an image of the catalog, where some node is healthy, returns the names of the healthy
-- nodes and puts in one command for each of them and for no other node, behind those that wait; the
-- database does not change.
pub deploy_whole :
    (env : Env) (id key : String) (img : ApiImage) (sys : System)
    → find_image id catalog ≡ some img
    → get_healthy env sys.db ≢ []
    → ((deploy env id sys).0 ≡ ok (map (λ (n : NodeRow). n.name) (get_healthy env sys.db)))
      × ((deploy env id sys).1.db ≡ sys.db)
      × (pending key (deploy env id sys).1.queues
          ≡ pending key sys.queues ++ copies (download_image img) key (get_healthy env sys.db))
deploy_whole env id key img sys found some_node =
    deploy_to env id key img sys (get_healthy env sys.db) found refl some_node
