-- ===== src/Tests/Calls.antt =====
-- The client's calls, the stored choice of a view and the titles, at concrete values.
use rig_stack.Prelude.{some, [], ◌∷◌, ◌≡◌, refl}
use rig_stack.Client.Http.{Response, value, nil, arr}
use rig_stack.Client.Endpoints.{
  nodes_delete, vpcs_delete, images_deploy, instances_start, instances_stop, instances_delete,
  instances_metrics,
}
use rig_stack.Controller.Router.{
  dispatch, delete_node, delete_vpc, deploy_image, start_instance, stop_instance, delete_instance,
  metrics,
}
use rig_stack.Controller.Router.Endpoints.{ids_dispatched}

ids_dispatched_example :
    (dispatch (nodes_delete "i-7") ≡ some (delete_node, "i-7" ∷ []))
    × (dispatch (vpcs_delete "i-7") ≡ some (delete_vpc, "i-7" ∷ []))
    × (dispatch (images_deploy "i-7") ≡ some (deploy_image, "i-7" ∷ []))
    × (dispatch (instances_start "i-7") ≡ some (start_instance, "i-7" ∷ []))
    × (dispatch (instances_stop "i-7") ≡ some (stop_instance, "i-7" ∷ []))
    × (dispatch (instances_delete "i-7") ≡ some (delete_instance, "i-7" ∷ []))
    × (dispatch (instances_metrics "i-7") ≡ some (metrics, "i-7" ∷ []))
ids_dispatched_example = ids_dispatched "i-7" ((λ e. cc), refl)

abbrev empty_list : Response
empty_list = record { status = 200; json = value (arr nil) }
