-- ===== src/Controller/Router/Endpoints.antt =====
-- The client's requests against the controller's table.
use Prim.Native.Char.{code}
use text.Mathlib.TextLemmas.{append_assoc}
use rig_stack.Prelude.{
  ℕ, String, ◌<>◌, ◌==◌, Bool, true, false, ◌&&◌, ◌||◌, some, List, [], ◌∷◌, ◌++◌, ◌≡◌, ◌≢◌, refl,
  ap, ◌∙◌, arith, eqb, leb, and-true, eq-false,
}
use rig_stack.Prelude.Text.{NoSlash, split_slash, split_slash_of_NoSlash, split_slash-slash}
use rig_stack.Client.Endpoints.{
  CreateData, nodes_list, nodes_delete, vpcs_list, vpcs_create, vpcs_delete, images_list,
  images_deploy, instances_list, instances_create, instances_start, instances_stop,
  instances_delete, instances_metrics,
}
use rig_stack.Client.Http.{delete, post, put, get}
use rig_stack.Controller.Router.{
  list_nodes, delete_node, list_images, deploy_image, list_vpcs, create_vpc, delete_vpc,
  list_instances, create_instance, start_instance, stop_instance, delete_instance, metrics,
  dispatch, serve, fits, select, match,
}

-- A digit, a letter or a dash, of which the ids of the database consist.
abbrev pub is_id_char : ℕ → Bool
is_id_char c =
    (leb b'0' c && leb c b'9')
    || (leb b'a' c && leb c b'z')
    || (leb b'A' c && leb c b'Z')
    || eqb c b'-'

abbrev pub all_id_chars : String → Bool
all_id_chars String.[] = true
all_id_chars (String.◌∷◌ c s) = is_id_char (code c) && all_id_chars s

abbrev pub IsId : String → Type 0
IsId s = (s ≢ "") × (all_id_chars s ≡ true)

all_id_chars-NoSlash : (s : String) → all_id_chars s ≡ true → NoSlash s
all_id_chars-NoSlash String.[] h = tt
all_id_chars-NoSlash (String.◌∷◌ c s) h = (ground arith, all_id_chars-NoSlash s (and-true _ _ h).1)

no_dots : (s t : String) → all_id_chars s ≡ true → all_id_chars t ≡ false → (s == t) ≡ false
no_dots s t h k = eq-false s t (λ e. cc (h, k, ap all_id_chars e))

parts_id : (p id : String) → NoSlash id → split_slash ((p <> "/") <> id) ≡ split_slash p ++ id ∷ []
parts_id p id h =
    ap split_slash (append_assoc p "/" id)
    ∙ split_slash-slash p id
    ∙ ap (λ q. split_slash p ++ q) (split_slash_of_NoSlash id h)

parts_action :
    (p id a : String)
    → NoSlash id
    → split_slash ((p <> "/") <> id <> "/" <> a) ≡ split_slash p ++ id ∷ split_slash a
parts_action p id a h =
    ap split_slash (append_assoc p "/" (id <> "/" <> a))
    ∙ split_slash-slash p (id <> "/" <> a)
    ∙ ap (λ q. split_slash p ++ q)
        (split_slash-slash id a ∙ ap (λ q. q ++ split_slash a) (split_slash_of_NoSlash id h))

-- Every request of the client without an id is served by the handler that it means.
pub lists_dispatched :
    (d : CreateData) (name cidr : String)
    → (dispatch nodes_list ≡ some (list_nodes, []))
      × (dispatch vpcs_list ≡ some (list_vpcs, []))
      × (dispatch images_list ≡ some (list_images, []))
      × (dispatch instances_list ≡ some (list_instances, []))
      × (dispatch (vpcs_create name cidr) ≡ some (create_vpc, []))
      × (dispatch (instances_create d) ≡ some (create_instance, []))
unfolding dispatch nodes_list vpcs_list images_list instances_list vpcs_create instances_create
lists_dispatched d name cidr = (refl, refl, refl, refl, refl, refl)

-- The parts of the paths about one id.
abbrev about : String → String → List String → List String
about kind id rest = "" ∷ "api" ∷ "v1" ∷ kind ∷ id ∷ rest

module _ (id : String) (plain : IsId id) where
  no_slash : NoSlash id
  no_slash = all_id_chars-NoSlash id plain.1

  dots_id : (p : String) → all_id_chars p ≡ false → (id == p) ≡ false
  dots_id p h = no_dots id p plain.1 h

  serve-delete_node : serve delete (about "nodes" id []) ≡ some (delete_node, id ∷ [])
  unfolding serve select fits match
  serve-delete_node = rw (dots_id "." refl, dots_id ".." refl, eq-false id "" plain.0) refl

  serve-delete_vpc : serve delete (about "vpcs" id []) ≡ some (delete_vpc, id ∷ [])
  unfolding serve select fits match
  serve-delete_vpc = rw (dots_id "." refl, dots_id ".." refl, eq-false id "" plain.0) refl

  serve-deploy_image : serve post (about "images" id ("deploy" ∷ [])) ≡ some (deploy_image, id ∷ [])
  unfolding serve select fits match
  serve-deploy_image = rw (dots_id "." refl, dots_id ".." refl, eq-false id "" plain.0) refl

  serve-start_instance :
      serve put (about "instances" id ("start" ∷ [])) ≡ some (start_instance, id ∷ [])
  unfolding serve select fits match
  serve-start_instance = rw (dots_id "." refl, dots_id ".." refl, eq-false id "" plain.0) refl

  serve-stop_instance :
      serve put (about "instances" id ("stop" ∷ [])) ≡ some (stop_instance, id ∷ [])
  unfolding serve select fits match
  serve-stop_instance = rw (dots_id "." refl, dots_id ".." refl, eq-false id "" plain.0) refl

  serve-delete_instance : serve delete (about "instances" id []) ≡ some (delete_instance, id ∷ [])
  unfolding serve select fits match
  serve-delete_instance = rw (dots_id "." refl, dots_id ".." refl, eq-false id "" plain.0) refl

  serve-metrics : serve get (about "instances" id ("metrics" ∷ [])) ≡ some (metrics, id ∷ [])
  unfolding serve select fits match
  serve-metrics = rw (dots_id "." refl, dots_id ".." refl, eq-false id "" plain.0) refl

  -- Every request of the client about one id, which is not empty and made of letters, digits and
  -- dashes, is served by the handler that it means, which is given that id.
  pub ids_dispatched :
      (dispatch (nodes_delete id) ≡ some (delete_node, id ∷ []))
      × (dispatch (vpcs_delete id) ≡ some (delete_vpc, id ∷ []))
      × (dispatch (images_deploy id) ≡ some (deploy_image, id ∷ []))
      × (dispatch (instances_start id) ≡ some (start_instance, id ∷ []))
      × (dispatch (instances_stop id) ≡ some (stop_instance, id ∷ []))
      × (dispatch (instances_delete id) ≡ some (delete_instance, id ∷ []))
      × (dispatch (instances_metrics id) ≡ some (metrics, id ∷ []))
  unfolding dispatch split_slash nodes_delete vpcs_delete images_deploy instances_start
      instances_stop instances_delete instances_metrics
  ids_dispatched = (
    ap (serve delete) (parts_id "/api/v1/nodes" id no_slash) ∙ serve-delete_node,
    ap (serve delete) (parts_id "/api/v1/vpcs" id no_slash) ∙ serve-delete_vpc,
    ap (serve post) (parts_action "/api/v1/images" id "deploy" no_slash) ∙ serve-deploy_image,
    ap (serve put) (parts_action "/api/v1/instances" id "start" no_slash) ∙ serve-start_instance,
    ap (serve put) (parts_action "/api/v1/instances" id "stop" no_slash) ∙ serve-stop_instance,
    ap (serve delete) (parts_id "/api/v1/instances" id no_slash) ∙ serve-delete_instance,
    ap (serve get) (parts_action "/api/v1/instances" id "metrics" no_slash) ∙ serve-metrics,
  )
