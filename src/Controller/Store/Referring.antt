-- ===== src/Controller/Store/Referring.antt =====
-- controller/internal/store/postgres: every instance refers to a node and a VPC that are there.
pub mod Statements
use rig_stack.Prelude.{
  String, ◌==◌, Bool, true, false, ◌&&◌, ◌||◌, not, Option, none, some, List, [], ◌∷◌, map, keep,
  any, All, is_some, truthy, ◌≡◌, refl, sym, ap, ◌∙◌, arith, inl, inr, Bool-cases, Option-cases,
  eq_iff, if◌then◌else◌,
}
use mathlib.Core.Option.{some-injective}
use rig_stack.Controller.Tables.{NodeRow, VpcRow, InstanceRow, Db, Env}
use rig_stack.Controller.Store.{find_row, update_rows, delete_rows}
use rig_stack.Controller.Store.Nodes as Nodes
use rig_stack.Controller.Store.Vpcs as Vpcs
use rig_stack.Controller.Store.Instances as Instances

-- Every instance refers to rows that are there.
abbrev pub IsReferring : Db → Type 0
IsReferring db = All (λ (i : InstanceRow). Instances.refers i db ≡ true) db.instances

module _ {ℓ} {A : Type ℓ} (key : A → String) where
  abbrev has : String → List A → Bool
  has id rs = is_some (find_row key id rs)

  -- Changes of rows that keep the keys keep what is there.
  has-map :
      (f : A → A) (id : String) (rs : List A)
      → ((r : A) → key (f r) ≡ key r)
      → has id (map f rs) ≡ has id rs
  unfolding find_row
  has-map f id [] kept = refl
  has-map f id (r ∷ rs) kept = elim (Bool-cases (key r == id)) [
    | inl e ↦ rw (kept r, e)
    | inr e ↦ rw (kept r, e) (has-map f id rs kept)
  ]

  pub has-cons : (id : String) (r : A) (rs : List A) → has id rs ≡ true → has id (r ∷ rs) ≡ true
  unfolding find_row
  has-cons id r rs h = elim (Bool-cases (key r == id)) [ inl e ↦ rw e | inr e ↦ rw e h ]

  -- A deletion takes away no row of another key.
  has-delete :
      (gone id : String) (rs : List A)
      → (id == gone) ≡ false
      → has id (delete_rows key gone rs) ≡ has id rs
  unfolding find_row
  has-delete gone id [] other = refl
  has-delete gone id (r ∷ rs) other =
      ground
        (arith, has-delete gone id rs other, eq_iff (key r) gone, eq_iff (key r) id, eq_iff id gone)

-- A row goes on referring where what it refers to is still there.
refers_mono :
    (i : InstanceRow) (old new : Db)
    → (has (λ (n : NodeRow). n.id) i.node_id old.nodes ≡ true
        → has (λ (n : NodeRow). n.id) i.node_id new.nodes ≡ true)
    → (has (λ (v : VpcRow). v.id) i.vpc_id old.vpcs ≡ true
        → has (λ (v : VpcRow). v.id) i.vpc_id new.vpcs ≡ true)
    → Instances.refers i old ≡ true
    → Instances.refers i new ≡ true
unfolding Instances.refers
refers_mono i old new nodes vpcs h = ground (arith, nodes, vpcs, h)

pub refers_on :
    (is : List InstanceRow) (old new : Db)
    → ((id : String)
        → has (λ (n : NodeRow). n.id) id old.nodes ≡ true
        → has (λ (n : NodeRow). n.id) id new.nodes ≡ true)
    → ((id : String)
        → has (λ (v : VpcRow). v.id) id old.vpcs ≡ true
        → has (λ (v : VpcRow). v.id) id new.vpcs ≡ true)
    → All (λ i. Instances.refers i old ≡ true) is
    → All (λ i. Instances.refers i new ≡ true) is
refers_on [] old new nodes vpcs h = tt
refers_on (i ∷ is) old new nodes vpcs (own, h) =
    (refers_mono i old new (nodes i.node_id) (vpcs i.vpc_id) own, refers_on is old new nodes vpcs h)

pub kept_by_update :
    (P : InstanceRow → Type 0) (id : String) (change : InstanceRow → InstanceRow)
    (is : List InstanceRow)
    → ((i : InstanceRow) → P i → P (change i))
    → All P is
    → All P (update_rows (λ (i : InstanceRow). i.id) id change is)
kept_by_update P id change [] kept h = tt
kept_by_update P id change (i ∷ is) kept (own, h) = elim (Bool-cases (i.id == id)) [
  | inl e ↦ rw e (kept i own, kept_by_update P id change is kept h)
  | inr e ↦ rw e (own, kept_by_update P id change is kept h)
]

pub kept_by_delete :
    (P : InstanceRow → Type 0) (p : InstanceRow → Bool) (is : List InstanceRow)
    → All P is
    → All P (keep p is)
kept_by_delete P p [] h = tt
kept_by_delete P p (i ∷ is) (own, h) = elim (Bool-cases (p i)) [
  | inl e ↦ rw e (own, kept_by_delete P p is h)
  | inr e ↦ rw e (kept_by_delete P p is h)
]

or-false : (a b : Bool) → (a || b) ≡ false → (a ≡ false) × (b ≡ false)
or-false a b h = ground arith

pub without_node :
    (id : String) (is : List InstanceRow) (db : Db)
    → any (λ (i : InstanceRow). i.node_id == id) is ≡ false
    → All (λ i. Instances.refers i db ≡ true) is
    → All
        (λ i.
          Instances.refers i (record db { nodes = delete_rows (λ (n : NodeRow). n.id) id db.nodes })
          ≡ true)
        is
without_node id [] db unused h = tt
without_node id (i ∷ is) db unused (own, h) =
    let (other, rest) = or-false (i.node_id == id) _ unused in
    (
      refers_mono i db (record db { nodes = delete_rows (λ (n : NodeRow). n.id) id db.nodes })
          (λ there. has-delete (λ (n : NodeRow). n.id) id i.node_id db.nodes other ∙ there)
          (λ there. there) own,
      without_node id is db rest h,
    )

pub without_vpc :
    (id : String) (is : List InstanceRow) (db : Db)
    → any (λ (i : InstanceRow). i.vpc_id == id) is ≡ false
    → All (λ i. Instances.refers i db ≡ true) is
    → All
        (λ i.
          Instances.refers i (record db { vpcs = delete_rows (λ (v : VpcRow). v.id) id db.vpcs })
          ≡ true)
        is
without_vpc id [] db unused h = tt
without_vpc id (i ∷ is) db unused (own, h) =
    let (other, rest) = or-false (i.vpc_id == id) _ unused in
    (
      refers_mono i db (record db { vpcs = delete_rows (λ (v : VpcRow). v.id) id db.vpcs })
          (λ there. there)
          (λ there. has-delete (λ (v : VpcRow). v.id) id i.vpc_id db.vpcs other ∙ there) own,
      without_vpc id is db rest h,
    )

pub mapped_nodes :
    (f : NodeRow → NodeRow) (db : Db)
    → ((n : NodeRow) → (f n).id ≡ n.id)
    → IsReferring db
    → IsReferring (record db { nodes = map f db.nodes })
mapped_nodes f db kept h =
    refers_on db.instances db (record db { nodes = map f db.nodes })
      (λ id there. has-map (λ (n : NodeRow). n.id) f id db.nodes kept ∙ there) (λ id there. there) h

pub if_id :
    (b : Bool) (f : NodeRow → NodeRow) (n : NodeRow)
    → (f n).id ≡ n.id
    → (if b then f n else n).id ≡ n.id
if_id true f n e = e
if_id false f n e = refl
