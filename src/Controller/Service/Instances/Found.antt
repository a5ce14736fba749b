-- ===== src/Controller/Service/Instances/Found.antt =====
-- controller/internal/service/instance.go: what a place that was found consists of.
use rig_stack.Prelude.{
  ℕ, String, true, is_some, some, ◌≡◌, ◌⊎◌, inl, inr, refl, sym, ◌∙◌, Option-cases,
}
use rig_stack.Client.Http.{Result, ok, err}
use rig_stack.Controller.Tables.{NodeRow, Db, Env}
use rig_stack.Controller.Store.{find_row}
use rig_stack.Controller.Store.Laws.{find_row-mem}
use rig_stack.Controller.Store.Vpcs
use rig_stack.Controller.Scheduler.{pick_node}
use rig_stack.Controller.Scheduler.Choice.{pick_node_lem}
use rig_stack.Controller.Address.{allocate_ip}
use rig_stack.Controller.Instances.{CreateRequest, check_create}
use rig_stack.Controller.Service.Instances.{Place, min_ram, find_place}

pub Result-cases {ℓ} :
    {A : Type ℓ} (r : Result A) → ((m : String) × (r ≡ err m)) ⊎ ((a : A) × (r ≡ ok a))
Result-cases (err m) = inl (m, refl)
Result-cases (ok a) = inr (a, refl)

pub ok_injective {ℓ} : {A : Type ℓ} (a b : A) → ok a ≡ ok b → a ≡ b
ok_injective a b e = cc

-- Each part of a place is what the code found.
pub find_place_lem :
    (env : Env) (req : CreateRequest) (db : Db) (p : Place)
    → find_place env req db ≡ ok p
    → (Vpcs.get req.vpc_id db ≡ some p.vpc)
      × (pick_node env (min_ram req.ram_mb) db ≡ ok p.node)
      × (allocate_ip env db p.vpc ≡ ok p.address)
unfolding find_place
find_place_lem env req db p h = elim (Option-cases (check_create req)) [
  | inr (m, e) ↦ cc (rw (find_place, e) at h)
  | inl e ↦ elim (Option-cases (Vpcs.get req.vpc_id db)) [
    | inl v ↦ cc (rw (find_place, e, v) at h)
    | inr (vpc, v) ↦ elim (Result-cases (pick_node env (min_ram req.ram_mb) db)) [
      | inl (m, n) ↦ cc (rw (find_place, e, v, n) at h)
      | inr (node, n) ↦ elim (Result-cases (allocate_ip env db vpc)) [
        | inl (m, a) ↦ cc (rw (find_place, e, v, n, a) at h)
        | inr (address, a) ↦
            let same = ok_injective _ p (rw (find_place, e, v, n, a) at h) in rw (← same) (v, n, a)
      ]
    ]
  ]
]

-- The node that is picked is a row of the database.
pub picked_found :
    (env : Env) (min : ℕ) (db : Db) (node : NodeRow)
    → pick_node env min db ≡ ok node
    → is_some (find_row (λ (n : NodeRow). n.id) node.id db.nodes) ≡ true
picked_found env min db node h = elim (pick_node_lem env min db) [
  | inl (n, e, there, well, enough, most) ↦
      rw (← ok_injective n node (sym e ∙ h)) (find_row-mem (λ (n : NodeRow). n.id) n db.nodes there)
  | inr (m, e, rest) ↦ cc
]
