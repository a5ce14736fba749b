-- ===== src/Controller/Store/Referring/Statements.antt =====
-- controller/internal/store/postgres: each statement leaves every instance with a node and a VPC that
-- are there.
use rig_stack.Prelude.{
  String, ◌==◌, true, some, ◌∷◌, any, ◌≡◌, refl, inl, inr, Bool-cases, Option-cases, if◌then◌else◌,
}
use mathlib.Core.Option.{some-injective}
use rig_stack.Controller.Tables.{NodeRow, VpcRow, InstanceRow, Db, Env}
use rig_stack.Controller.Store.{find_row}
use rig_stack.Controller.Store.Nodes as Nodes
use rig_stack.Controller.Store.Vpcs as Vpcs
use rig_stack.Controller.Store.Instances as Instances
use rig_stack.Controller.Store.Referring.{
  IsReferring, refers_on, has-cons, mapped_nodes, if_id, kept_by_update, kept_by_delete,
  without_node, without_vpc,
}

pub upsert-IsReferring :
    (env : Env) (fresh : String) (n : NodeRow) (db : Db)
    → IsReferring db
    → IsReferring (Nodes.upsert env fresh n db).1
unfolding Nodes.upsert
upsert-IsReferring env fresh n db h =
    elim (Option-cases (find_row (λ (m : NodeRow). m.address) n.address db.nodes)) [
      | inr (old, e) ↦
          rw (Nodes.upsert, e)
            (mapped_nodes
              (λ r. if r.address == n.address then Nodes.registered_again env n r else r) db
              (λ r. if_id (r.address == n.address) (Nodes.registered_again env n) r refl) h)
      | inl e ↦
          rw (Nodes.upsert, e)
            (refers_on db.instances db
              (record db { nodes = Nodes.registered env fresh n ∷ db.nodes })
              (λ id there.
                has-cons (λ (m : NodeRow). m.id) id (Nodes.registered env fresh n) db.nodes there)
              (λ id there. there) h)
    ]

pub update_heartbeat-IsReferring :
    (env : Env) (id : String) (l : Nodes.Load) (db : Db)
    → IsReferring db
    → IsReferring (Nodes.update_heartbeat env id l db)
unfolding Nodes.update_heartbeat
update_heartbeat-IsReferring env id l db h =
    mapped_nodes (λ r. if r.id == id then Nodes.beaten env l r else r) db
      (λ r. if_id (r.id == id) (Nodes.beaten env l) r refl) h

pub mark_unreachable-IsReferring :
    (id : String) (db : Db) → IsReferring db → IsReferring (Nodes.mark_unreachable id db)
unfolding Nodes.mark_unreachable
mark_unreachable-IsReferring id db h =
    mapped_nodes (λ r. if r.id == id then record r { status = "unreachable" } else r) db
      (λ r. if_id (r.id == id) (λ m. record m { status = "unreachable" }) r refl) h

pub update_status-IsReferring :
    (env : Env) (id status ip : String) (db : Db)
    → IsReferring db
    → IsReferring (Instances.update_status env id status ip db)
unfolding Instances.update_status Instances.refers
update_status-IsReferring env id status ip db h =
    kept_by_update (λ i. Instances.refers i db ≡ true) id _ db.instances (λ i own. own) h

pub update_vm_status-IsReferring :
    (env : Env) (id status ip : String) (db : Db)
    → IsReferring db
    → IsReferring (Instances.update_vm_status env id status ip db)
unfolding Instances.update_vm_status Instances.refers
update_vm_status-IsReferring env id status ip db h =
    kept_by_update (λ i. Instances.refers i db ≡ true) id _ db.instances (λ i own. own) h

pub delete-IsReferring :
    (id : String) (db : Db) → IsReferring db → IsReferring (Instances.delete id db)
unfolding Instances.delete Instances.refers
delete-IsReferring id db h = kept_by_delete (λ i. Instances.refers i db ≡ true) _ db.instances h

pub delete_node-IsReferring :
    (id : String) (db new : Db) → Nodes.delete id db ≡ some new → IsReferring db → IsReferring new
unfolding Nodes.delete
delete_node-IsReferring id db new e h =
    elim (Bool-cases (any (λ (i : InstanceRow). i.node_id == id) db.instances)) [
      | inl used ↦ cc (rw (Nodes.delete, used) at e)
      | inr unused ↦
          rw (← some-injective _ _ (rw (Nodes.delete, unused) at e))
            (without_node id db.instances db unused h)
    ]

pub delete_vpc-IsReferring :
    (id : String) (db new : Db) → Vpcs.delete id db ≡ some new → IsReferring db → IsReferring new
unfolding Vpcs.delete
delete_vpc-IsReferring id db new e h =
    elim (Bool-cases (any (λ (i : InstanceRow). i.vpc_id == id) db.instances)) [
      | inl used ↦ cc (rw (Vpcs.delete, used) at e)
      | inr unused ↦
          rw (← some-injective _ _ (rw (Vpcs.delete, unused) at e))
            (without_vpc id db.instances db unused h)
    ]

pub create_vpc-IsReferring :
    (env : Env) (fresh name cidr : String) (db new : Db)
    → Vpcs.create env fresh name cidr db ≡ some new
    → IsReferring db
    → IsReferring new
unfolding Vpcs.create
create_vpc-IsReferring env fresh name cidr db new e h = elim (Option-cases (env.cidr_column cidr)) [
  | inl c ↦ cc (rw (Vpcs.create, c) at e)
  | inr (kept, c) ↦ rw (← some-injective _ _ (rw (Vpcs.create, c) at e)) (
      refers_on db.instances db _ (λ id there. there)
        (λ id there. has-cons (λ (v : VpcRow). v.id) id _ db.vpcs there) h)
]

pub create-IsReferring :
    (i : InstanceRow) (db new : Db)
    → Instances.create i db ≡ some new
    → IsReferring db
    → IsReferring new
unfolding Instances.create Instances.refers
create-IsReferring i db new e h = elim (Bool-cases (Instances.fits i.vcpus i.ram_mb i.disk_gb)) [
  | inr f ↦ cc (rw (Instances.create, f) at e)
  | inl f ↦ elim (Bool-cases (Instances.refers i db)) [
    | inr r ↦ cc (rw (Instances.create, f, r) at e)
    | inl r ↦ rw (← some-injective _ _ (rw (Instances.create, f, r) at e)) (r, h)
  ]
]
