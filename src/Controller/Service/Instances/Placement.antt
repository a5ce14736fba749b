-- ===== src/Controller/Service/Instances/Placement.antt =====
-- controller/internal/service/instance.go: what `Create` leaves behind.
use rig_stack.Prelude.{
  String, ◌==◌, true, false, is_some, ◌∷◌, All, ◌≡◌, ◌⊎◌, inl, inr, refl, ap, arith, eq_refl,
  Bool-cases, ◌<>◌, none,
}
use rig_stack.Client.Http.{Result, ok, err}
use rig_stack.Controller.Tables.{
  InstanceRow, Db, Env, Trouble, no_trouble, at_insert, at_update, at_read,
}
use rig_stack.Controller.Store.{find_row}
use rig_stack.Controller.Store.Laws.{update_rows-absent}
use rig_stack.Controller.Store.Vpcs
use rig_stack.Controller.Store.Instances as Rows
use rig_stack.Controller.Dispatcher.{enqueue}
use rig_stack.Controller.Instances.{CreateRequest}
use rig_stack.Controller.Service.{System}
use rig_stack.Controller.Service.Instances.{
  Place, min_ram, find_place, new_row, create_vm, get_instance, insert_fails, update_fails,
  read_fails, insert, read_created, place, create,
}
use rig_stack.Controller.Service.Instances.Found.{Result-cases, find_place_lem, picked_found}

-- The row with which an instance is there after its creation.
abbrev pub placed_row : Env → String → String → CreateRequest → Place → InstanceRow
placed_row env fresh password req p = record (new_row env fresh password req p) {
  ip_address = Rows.ip_column env p.address.ip;
}

module _ (env : Env) (fresh password : String) (req : CreateRequest) where
  referred :
      (db : Db) (p : Place)
      → find_place env req db ≡ ok p
      → Rows.refers (new_row env fresh password req p) db ≡ true
  unfolding Rows.refers Vpcs.get
  referred db p h =
      let (v, n, a) = find_place_lem env req db p h in
      let vpc = ap is_some v in
      let node = picked_found env (min_ram req.ram_mb) db p.node n in ground (arith, vpc, node)

  -- For a place that was found, the insertion fails only of a statement that fails, or of a number that is
  -- too large.
  inserted :
      (db : Db) (p : Place)
      → find_place env req db ≡ ok p
      → insert_fails env.trouble ≡ none
      → Rows.fits req.vcpus req.ram_mb req.disk_gb ≡ true
      → insert env (new_row env fresh password req p) db
        ≡ ok (record db { instances = new_row env fresh password req p ∷ db.instances })
  unfolding insert Rows.create
  inserted db p h calm fits = rw (insert, calm, Rows.create, fits, referred db p h) refl

  too_large_lem :
      (db : Db) (p : Place)
      → insert_fails env.trouble ≡ none
      → Rows.fits req.vcpus req.ram_mb req.disk_gb ≡ false
      → insert env (new_row env fresh password req p) db ≡ err env.too_large
  unfolding insert Rows.create
  too_large_lem db p calm fits = rw (insert, calm, Rows.create, fits, fits) refl

  addressed :
      (db : Db) (p : Place)
      → All (λ (i : InstanceRow). (i.id == fresh) ≡ false) db.instances
      → Rows.update_status env fresh "pending" p.address.ip
          (record db { instances = new_row env fresh password req p ∷ db.instances })
        ≡ record db { instances = placed_row env fresh password req p ∷ db.instances }
  unfolding Rows.update_status
  addressed db p new = rw (
    eq_refl fresh,
    update_rows-absent (λ (i : InstanceRow). i.id) fresh
        (λ i. record i {
          status = "pending";
          ip_address = Rows.ip_column env p.address.ip;
          updated_at = env.now;
        })
        db.instances new,
  )

  read_back :
      (db : Db) (p : Place)
      → get_instance env fresh
          (record db { instances = placed_row env fresh password req p ∷ db.instances })
        ≡ ok (placed_row env fresh password req p)
  unfolding Rows.get find_row
  read_back db p = rw (get_instance, eq_refl fresh)

  -- The system with the row of a creation and its command.
  abbrev pub placed_system : Place → System → System
  placed_system p sys = record {
    db = record sys.db { instances = placed_row env fresh password req p ∷ sys.db.instances };
    queues = enqueue p.node.id (create_vm fresh password req p) sys.queues;
  }

  -- The system with the row that has no address, and no command.
  abbrev pub abandoned_system : Place → System → System
  abandoned_system p sys = record sys {
    db = record sys.db { instances = new_row env fresh password req p ∷ sys.db.instances };
  }

  -- What `Create` answers and leaves, for a place that was found, in the order of its statements.
  abbrev pub Placed : Place → System → Result InstanceRow × System → Type 0
  Placed p sys r =
      ((m : String) × (r ≡ (err ("create instance: " <> m), sys))
        × ((env.trouble ≡ at_insert m)
            ⊎ ((m ≡ env.too_large) × (Rows.fits req.vcpus req.ram_mb req.disk_gb ≡ false))))
      ⊎ ((Rows.fits req.vcpus req.ram_mb req.disk_gb ≡ true)
          × (((m : String) × (env.trouble ≡ at_update m)
                × (r ≡ (err ("update instance ip: " <> m), abandoned_system p sys)))
              ⊎ (((m : String) × (env.trouble ≡ at_read m)
                    × (r ≡ (err ("instance " <> fresh <> ": " <> m), placed_system p sys)))
                  ⊎ ((env.trouble ≡ no_trouble)
                      × (r ≡ (ok (placed_row env fresh password req p), placed_system p sys))))))

  too_large_placed :
      (sys : System) (p : Place)
      → insert_fails env.trouble ≡ none
      → Rows.fits req.vcpus req.ram_mb req.disk_gb ≡ false
      → place env fresh password req p sys ≡ (err ("create instance: " <> env.too_large), sys)
  unfolding place
  too_large_placed sys p calm fits = rw (place, too_large_lem sys.db p calm fits) refl

  module _ (sys : System) (p : Place) (h : find_place env req sys.db ≡ ok p) where
    abandoned :
        (m : String)
        → env.trouble ≡ at_update m
        → Rows.fits req.vcpus req.ram_mb req.disk_gb ≡ true
        → place env fresh password req p sys
          ≡ (err ("update instance ip: " <> m), abandoned_system p sys)
    unfolding place
    abandoned m e fits =
        rw (place, inserted sys.db p h (ap insert_fails e) fits, ap update_fails e) refl

    module _ (new : All (λ (i : InstanceRow). (i.id == fresh) ≡ false) sys.db.instances) where
      unread :
          (m : String)
          → env.trouble ≡ at_read m
          → Rows.fits req.vcpus req.ram_mb req.disk_gb ≡ true
          → place env fresh password req p sys
            ≡ (err ("instance " <> fresh <> ": " <> m), placed_system p sys)
      unfolding place
      unread m e fits =
          rw
            (
              place,
              inserted sys.db p h (ap insert_fails e) fits,
              ap update_fails e,
              read_created,
              ap read_fails e,
              addressed sys.db p new,
            )
            refl

      placed :
          env.trouble ≡ no_trouble
          → Rows.fits req.vcpus req.ram_mb req.disk_gb ≡ true
          → place env fresh password req p sys
            ≡ (ok (placed_row env fresh password req p), placed_system p sys)
      unfolding place
      placed e fits =
          rw
            (
              place,
              inserted sys.db p h (ap insert_fails e) fits,
              ap update_fails e,
              read_created,
              ap read_fails e,
              addressed sys.db p new,
              read_back sys.db p,
            )
            refl

      refused_insert :
          (m : String)
          → env.trouble ≡ at_insert m
          → place env fresh password req p sys ≡ (err ("create instance: " <> m), sys)
      unfolding place insert
      refused_insert m e = rw (place, insert, ap insert_fails e) refl

      -- What follows the insertion, or the error of a number that is too large.
      fitting :
          insert_fails env.trouble ≡ none
          → ((Rows.fits req.vcpus req.ram_mb req.disk_gb ≡ true)
              → ((m : String) × (env.trouble ≡ at_update m)
                  × (place env fresh password req p sys
                      ≡ (err ("update instance ip: " <> m), abandoned_system p sys)))
                ⊎ (((m : String) × (env.trouble ≡ at_read m)
                      × (place env fresh password req p sys
                          ≡ (err ("instance " <> fresh <> ": " <> m), placed_system p sys)))
                    ⊎ ((env.trouble ≡ no_trouble)
                        × (place env fresh password req p sys
                            ≡ (ok (placed_row env fresh password req p), placed_system p sys)))))
          → Placed p sys (place env fresh password req p sys)
      fitting calm rest = elim (Bool-cases (Rows.fits req.vcpus req.ram_mb req.disk_gb)) [
        | inl fits ↦ inr (fits, rest fits)
        | inr large ↦ inl (env.too_large, too_large_placed sys p calm large, inr (refl, large))
      ]

      place-Placed :
          (t : Trouble) → env.trouble ≡ t → Placed p sys (place env fresh password req p sys)
      place-Placed (at_insert m) e = inl (m, refused_insert m e, inl e)
      place-Placed (at_update m) e =
          fitting (ap insert_fails e) (λ fits. inl (m, e, abandoned m e fits))
      place-Placed (at_read m) e =
          fitting (ap insert_fails e) (λ fits. inr (inl (m, e, unread m e fits)))
      place-Placed no_trouble e = fitting (ap insert_fails e) (λ fits. inr (inr (e, placed e fits)))

-- `Create`, for a fresh id that no instance has. If the checks, the VPC, the node or the address
-- fail, the caller gets that error and nothing is changed. Otherwise a place is found. If then the
-- insertion fails, or if a number is too large for its column, the caller gets that error and nothing is
-- changed. If the row is inserted and the statement that writes its address fails, the caller gets that
-- error, and the row is left, pending, with no address and no command. If only the last statement fails,
-- the caller gets its error, and the row and the command are there. If nothing fails, the caller gets the new
-- row, pending, with its node and its address; the row is the one change of the database; and
-- one command is put in, for the node of the row.
pub create_whole :
    (env : Env) (fresh password : String) (req : CreateRequest) (sys : System)
    → All (λ (i : InstanceRow). (i.id == fresh) ≡ false) sys.db.instances
    → ((m : String) × (find_place env req sys.db ≡ err m)
        × (create env fresh password req sys ≡ (err m, sys)))
      ⊎ ((p : Place) × (find_place env req sys.db ≡ ok p)
          × Placed env fresh password req p sys (create env fresh password req sys))
unfolding create
create_whole env fresh password req sys new = elim (Result-cases (find_place env req sys.db)) [
  | inl (m, e) ↦ inl (m, e, rw (create, e) refl)
  | inr (p, e) ↦
      inr (p, e, rw (create, e) (place-Placed env fresh password req sys p e new env.trouble refl))
]

-- A creation of which nothing fails, for a place that was found.
pub created :
    (env : Env) (fresh password : String) (req : CreateRequest) (sys : System) (p : Place)
    → All (λ (i : InstanceRow). (i.id == fresh) ≡ false) sys.db.instances
    → find_place env req sys.db ≡ ok p
    → env.trouble ≡ no_trouble
    → Rows.fits req.vcpus req.ram_mb req.disk_gb ≡ true
    → create env fresh password req sys
      ≡ (ok (placed_row env fresh password req p), placed_system env fresh password req p sys)
unfolding create
created env fresh password req sys p new e calm fits =
    rw (create, e) (placed env fresh password req sys p e new calm fits)
