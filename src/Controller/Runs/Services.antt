-- ===== src/Controller/Runs/Services.antt =====
-- controller/internal/service and controller/internal/grpcserver: each call leaves every instance
-- with a node and a VPC that are there.
use rig_stack.Prelude.{
  String, none, some, List, [], ◌∷◌, ◌≡◌, refl, inl, inr, Bool-cases, Option-cases, truthy,
}
use rig_stack.Client.Http.{ok}
use rig_stack.Controller.Tables.{NodeRow, InstanceRow, Db, Env}
use rig_stack.Controller.Store.Referring.{IsReferring}
use rig_stack.Controller.Store.Referring.Statements.{
  upsert-IsReferring, update_heartbeat-IsReferring, mark_unreachable-IsReferring,
  update_status-IsReferring, update_vm_status-IsReferring, delete-IsReferring,
  delete_node-IsReferring, delete_vpc-IsReferring, create_vpc-IsReferring, create-IsReferring,
}
use rig_stack.Controller.Store.Nodes as NodeRows
use rig_stack.Controller.Store.Vpcs as VpcRows
use rig_stack.Controller.Store.Instances as Rows
use rig_stack.Controller.Store.Nodes.{Load}
use rig_stack.Client.Types.{ApiImage}
use rig_stack.Controller.Images.{catalog}
use rig_stack.Controller.Instances.{CreateRequest}
use rig_stack.Controller.Service.{System}
use rig_stack.Controller.Service.Vpcs as Vpcs
use rig_stack.Controller.Service.Instances as Instances
use rig_stack.Controller.Service.Instances.{
  Place, find_place, place, new_row, insert, insert_fails, update_fails,
}
use rig_stack.Controller.Service.Instances.Found.{Result-cases, ok_injective}
use rig_stack.Controller.Service.Images as Images
use rig_stack.Controller.Heartbeat.{
  Received, closed, broken, beat, register_node, heartbeat, beaten_by, lose, report_vm_status,
}

-- The instances of a system refer to what is there.
abbrev pub IsSound : System → Type 0
IsSound sys = IsReferring sys.db

module _ (env : Env) (sys : System) (h : IsSound sys) where
  pub create_vpc-IsSound :
      (fresh name cidr : String) → IsSound (Vpcs.create env fresh name cidr sys).1
  unfolding Vpcs.create
  create_vpc-IsSound fresh name cidr = elim (Option-cases (env.parse_cidr cidr)) [
    | inl e ↦ rw (Vpcs.create, e) h
    | inr (net, e) ↦ elim (Option-cases (VpcRows.create env fresh name cidr sys.db)) [
      | inl c ↦ rw (Vpcs.create, e, c) h
      | inr (db, c) ↦
          rw (Vpcs.create, e, c) (create_vpc-IsReferring env fresh name cidr sys.db db c h)
    ]
  ]

  pub delete_vpc-IsSound : (id : String) → IsSound (Vpcs.delete env id sys).1
  unfolding Vpcs.delete
  delete_vpc-IsSound id = elim (Option-cases (VpcRows.get id sys.db)) [
    | inl e ↦ rw (Vpcs.delete, e) h
    | inr (vpc, e) ↦ elim (Option-cases (VpcRows.delete id sys.db)) [
      | inl c ↦ rw (Vpcs.delete, e, c) h
      | inr (db, c) ↦ rw (Vpcs.delete, e, c) (delete_vpc-IsReferring id sys.db db c h)
    ]
  ]

  inserted-IsReferring :
      (i : InstanceRow) (new : Db) → insert env i sys.db ≡ ok new → IsReferring new
  unfolding insert
  inserted-IsReferring i new e = elim (Option-cases (insert_fails env.trouble)) [
    | inr (m, f) ↦ cc (rw (insert, f) at e)
    | inl f ↦ elim (Option-cases (Rows.create i sys.db)) [
      | inl c ↦ cc (rw (insert, f, c) at e)
      | inr (db, c) ↦
          rw (← ok_injective _ _ (rw (insert, f, c) at e)) (create-IsReferring i sys.db db c h)
    ]
  ]

  place-IsSound :
      (fresh password : String) (req : CreateRequest) (p : Place)
      → IsSound (place env fresh password req p sys).1
  unfolding place
  place-IsSound fresh password req p =
      let row = new_row env fresh password req p in
      elim (Result-cases (insert env row sys.db)) [
        | inl (m, c) ↦ rw (place, c) h
        | inr (db, c) ↦
            let there = inserted-IsReferring row db c in
            elim (Option-cases (update_fails env.trouble)) [
              | inr (m, f) ↦ rw (place, c, f) there
              | inl f ↦
                  rw (place, c, f)
                    (update_status-IsReferring env fresh "pending" p.address.ip db there)
            ]
      ]

  pub create-IsSound :
      (fresh password : String) (req : CreateRequest)
      → IsSound (Instances.create env fresh password req sys).1
  unfolding Instances.create
  create-IsSound fresh password req = elim (Result-cases (find_place env req sys.db)) [
    | inl (m, e) ↦ rw (Instances.create, e) h
    | inr (p, e) ↦ rw (Instances.create, e) (place-IsSound fresh password req p)
  ]

  pub start-IsSound : (id : String) → IsSound (Instances.start env id sys).1
  unfolding Instances.start
  start-IsSound id = elim (Option-cases (Rows.get id sys.db)) [
    | inl e ↦ rw (Instances.start, e) h
    | inr (i, e) ↦ elim (Option-cases (VpcRows.get i.vpc_id sys.db)) [
      | inl v ↦ rw (Instances.start, e, v) h
      | inr (vpc, v) ↦
          rw (Instances.start, e, v) (update_status-IsReferring env id "starting" "" sys.db h)
    ]
  ]

  pub stop-IsSound : (id : String) → IsSound (Instances.stop env id sys).1
  unfolding Instances.stop
  stop-IsSound id = elim (Option-cases (Rows.get id sys.db)) [
    | inl e ↦ rw (Instances.stop, e) h
    | inr (i, e) ↦ rw (Instances.stop, e) (update_status-IsReferring env id "stopping" "" sys.db h)
  ]

  pub delete-IsSound : (id : String) → IsSound (Instances.delete env id sys).1
  unfolding Instances.delete
  delete-IsSound id = elim (Option-cases (Rows.get id sys.db)) [
    | inl e ↦ rw (Instances.delete, e) h
    | inr (i, e) ↦
        rw (Instances.delete, e)
          (delete-IsReferring id (Rows.update_status env id "terminating" "" sys.db)
            (update_status-IsReferring env id "terminating" "" sys.db h))
  ]

  deploy_to-IsSound :
      (id : String) (img : ApiImage) (ns : List NodeRow)
      → Images.find_image id catalog ≡ some img
      → NodeRows.get_healthy env sys.db ≡ ns
      → IsSound (Images.deploy env id sys).1
  unfolding Images.deploy
  deploy_to-IsSound id img [] e n = rw (Images.deploy, e, n) h
  deploy_to-IsSound id img (m ∷ ns) e n = rw (Images.deploy, e, n) h

  pub deploy-IsSound : (id : String) → IsSound (Images.deploy env id sys).1
  unfolding Images.deploy
  deploy-IsSound id = elim (Option-cases (Images.find_image id catalog)) [
    | inl e ↦ rw (Images.deploy, e) h
    | inr (img, e) ↦ deploy_to-IsSound id img (NodeRows.get_healthy env sys.db) e refl
  ]

  pub delete_node-IsSound : (id : String) → IsSound (Images.delete_node env id sys).1
  unfolding Images.delete_node
  delete_node-IsSound id = elim (Option-cases (NodeRows.delete id sys.db)) [
    | inl c ↦ rw (Images.delete_node, c) h
    | inr (db, c) ↦ rw (Images.delete_node, c) (delete_node-IsReferring id sys.db db c h)
  ]

  pub register_node-IsSound :
      (fresh : String) (info : NodeRow) → IsSound (register_node env fresh info sys).1
  unfolding register_node
  register_node-IsSound fresh info = upsert-IsReferring env fresh info sys.db h

  pub report_vm_status-IsSound :
      (vm_id status ip : String) → IsSound (report_vm_status env vm_id status ip sys)
  unfolding report_vm_status
  report_vm_status-IsSound vm_id status ip =
      update_vm_status-IsReferring env vm_id status ip sys.db h

lose-IsSound : (id : String) (sys : System) → IsSound sys → IsSound (lose id sys)
unfolding lose
lose-IsSound id sys h = elim (Bool-cases (truthy id)) [
  | inl e ↦ rw (lose, e) (mark_unreachable-IsReferring id sys.db h)
  | inr e ↦ rw (lose, e) h
]

pub heartbeat-IsSound :
    (env : Env) (received : List Received) (node_id : String) (sys : System)
    → IsSound sys
    → IsSound (heartbeat env received node_id sys).sys
unfolding heartbeat beaten_by
heartbeat-IsSound env [] node_id sys h = h
heartbeat-IsSound env (closed ∷ more) node_id sys h = h
heartbeat-IsSound env (broken m ∷ more) node_id sys h = lose-IsSound node_id sys h
heartbeat-IsSound env (beat id l (some m) ∷ more) node_id sys h =
    update_heartbeat-IsReferring env id l sys.db h
heartbeat-IsSound env (beat id l none ∷ more) node_id sys h =
    heartbeat-IsSound env more id (beaten_by env id l sys)
      (update_heartbeat-IsReferring env id l sys.db h)
