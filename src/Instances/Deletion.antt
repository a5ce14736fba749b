-- ===== src/Instances/Deletion.antt =====
-- The deletion of an instance, from the dialog to the reload.
use rig_stack.Prelude.{
  ℕ, suc, zero, String, Option, none, some, List, [], ◌∷◌, map, ◌++◌, ◌≡◌, ◌≢◌, ◌⊎◌, ◌==◌, inl, inr,
  Bool-cases, true, false, refl, ap, ◌∙◌, get_elem?, arith, eq_iff,
}
use rig_stack.Client.Http.{Json, ok, err, req, response, to_void}
use rig_stack.Client.Laws.{req-write_error}
use rig_stack.Controller.Tables.{InstanceRow, Env}
use rig_stack.Controller.Store.Instances as Rows
use rig_stack.Controller.Service.{System}
use rig_stack.Controller.Api.{remove_instance}
use rig_stack.Client.Types.{ApiInstance, ApiVpc}
use rig_stack.Client.Endpoints.{instances_delete}
use rig_stack.Instances.{State, confirm, terminate, resume, deleted, loaded, reload_timer}
use rig_stack.Instances.Page.{row_enabled}

-- An instance of another id is as it was.
terminate_other : (id : String) (i : ApiInstance) → i.id ≢ id → terminate id i ≡ i
terminate_other id i h = ground (arith, eq_iff i.id id)

terminate_self :
    (id : String) (i : ApiInstance)
    → i.id ≡ id
    → terminate id i ≡ record i { status = "terminating" }
terminate_self id i h = ground (arith, eq_iff i.id id)

get_elem?-map :
    {A B : Type 0} (f : A → B) (xs : List A) (k : ℕ) (a : A)
    → get_elem? xs k ≡ some a
    → get_elem? (map f xs) k ≡ some (f a)
get_elem?-map f [] k a h = cc
get_elem?-map f (x ∷ xs) zero a h = ground arith
get_elem?-map f (x ∷ xs) (suc k) a h = get_elem?-map f xs k a h

-- Confirming closes the dialog, sends the one request that deletes the target, and marks every row
-- of the target's id as terminating, with its buttons disabled; each other row stays as it is, at
-- its place.
pub confirm_lem :
    (s : State) (t : ApiInstance) (k : ℕ) (i : ApiInstance)
    → s.delete_target ≡ some t
    → get_elem? s.instances k ≡ some i
    → ((confirm s).state.delete_target ≡ none)
      × ((confirm s).sent ≡ instances_delete t.id ∷ [])
      × (((i.id ≡ t.id)
            × ((j : ApiInstance) × (get_elem? (confirm s).state.instances k ≡ some j)
                × (j ≡ record i { status = "terminating" })
                × (row_enabled (some j) ≡ false)))
          ⊎ ((i.id ≢ t.id) × (get_elem? (confirm s).state.instances k ≡ some i)))
unfolding confirm
confirm_lem s t k i h at = rw h (
  refl,
  refl,
  elim (Bool-cases (i.id == t.id)) [
    | inl e ↦
        let same = (eq_iff i.id t.id).0 e in
        inl (
          same,
          (
            record i { status = "terminating" },
            get_elem?-map (terminate t.id) s.instances k i at
                ∙ ap some (terminate_self t.id i same),
            refl,
            refl,
          ),
        )
    | inr e ↦
        let other : i.id ≢ t.id = ground (arith, eq_iff i.id t.id) in
        inr (
          other,
          get_elem?-map (terminate t.id) s.instances k i at
              ∙ ap some (terminate_other t.id i other),
        )
  ],
)

-- The controller refuses to delete an instance that runs.
refused :
    (time : ℕ → String) (env : Env) (of_null id : String) (sys : System) (row : InstanceRow)
    → Rows.get id sys.db ≡ some row
    → row.status ≡ "running"
    → (req of_null (response (remove_instance time env id sys).0)
        ≡ err "stop the instance before deleting")
      × ((remove_instance time env id sys).1 ≡ sys)
unfolding remove_instance
refused time env of_null id sys row h running =
    rw (remove_instance, h, running) (req-write_error of_null 409 _ (omega arith), refl)

-- The page goes on after a refused deletion as after any other.
silent :
    (s : State) (m : String) (fresh : List ApiInstance) (vpcs : List ApiVpc)
    → let settled = resume s deleted (to_void {A = Option Json} (err m)) in
      let waited = resume settled.state reload_timer tt in
      let reloaded = resume waited.state loaded (ok (some fresh, some vpcs)) in
      (settled.tasks ≡ reload_timer ∷ [])
      × (waited.tasks ≡ loaded ∷ [])
      × (settled.alerts ++ waited.alerts ++ reloaded.alerts ≡ [])
      × (reloaded.state.error ≡ s.error)
      × (reloaded.state.instances ≡ fresh)
unfolding resume
silent s m fresh vpcs = (refl, refl, refl, refl, refl)

-- An instance runs in the database, and the page has it as running, so its delete button is enabled.
-- For its deletion the controller answers with an error and changes nothing, the row included. The page
-- opens no dialog and records no error: as after any other answer it waits for the timer of 1.5 s,
-- loads the lists again and then holds the instances that come.
pub refused_deletion_is_silent :
    (time : ℕ → String) (env : Env) (of_null : String) (sys : System) (row : InstanceRow)
    (s : State) (i : ApiInstance) (fresh : List ApiInstance) (vpcs : List ApiVpc)
    → Rows.get i.id sys.db ≡ some row
    → row.status ≡ "running"
    → i.status ≡ "running"
    → let answered = remove_instance time env i.id sys in
      let answer = req of_null (response answered.0) in
      let settled = resume s deleted (to_void answer) in
      let waited = resume settled.state reload_timer tt in
      let reloaded = resume waited.state loaded (ok (some fresh, some vpcs)) in
      (row_enabled (some i) ≡ true)
      × (answer ≡ err "stop the instance before deleting")
      × (answered.1 ≡ sys)
      × (settled.tasks ≡ reload_timer ∷ [])
      × (waited.tasks ≡ loaded ∷ [])
      × (settled.alerts ++ waited.alerts ++ reloaded.alerts ≡ [])
      × (reloaded.state.error ≡ s.error)
      × (reloaded.state.instances ≡ fresh)
refused_deletion_is_silent time env of_null sys row s i fresh vpcs h running shown =
    let (answer, same) = refused time env of_null i.id sys row h running in
    let (timer, reload, quiet, kept, held) =
      silent s "stop the instance before deleting" fresh vpcs in
    rw (answer, shown) (refl, refl, same, timer, reload, quiet, kept, held)
