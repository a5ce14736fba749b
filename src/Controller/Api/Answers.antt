-- ===== src/Controller/Api/Answers.antt =====
-- controller/internal/api/handler/instance.go and frontend/src/api/client.ts: what the caller of `api`
-- gets for a creation.
use rig_stack.Prelude.{
  Option, none, Option-cases, Bool-cases, ℕ, String, ◌==◌, some, All, ◌∷◌, ◌≡◌, ◌⊎◌, inl, inr, refl,
  true, false, arith, ◌<>◌, or_else, ltb, ap,
}
use rig_stack.Client.Http.{ok, err, Json, response, req}
use rig_stack.Client.Laws.{req-write_error}
use rig_stack.Client.Endpoints.{CreateData, create_json}
use rig_stack.Controller.Tables.{InstanceRow, Env, no_trouble}
use rig_stack.Agent.Commands.Understood.{digits_from-decimal}
use rig_stack.Controller.Instances.{
  CreateRequest, int_limit, same_name, set_field, set_fields, read_create, delete_instance,
}
use rig_stack.Controller.Service.{System}
use rig_stack.Controller.Service.Instances as Service
use rig_stack.Controller.Service.Instances.{Place, find_place}
use rig_stack.Controller.Service.Instances.Placement.{placed_row, create_whole}
use rig_stack.Controller.Api.{
  answer, write_json, instance_response, create_instance, remove_instance,
}
use rig_stack.Client.Types.{ApiInstance}
use rig_stack.Controller.Store.Instances as Rows

read_as_created :
    (time : ℕ → String) (env : Env) (bad_json fresh password : String) (body : Json) (sys : System)
    (d : CreateRequest)
    → read_create body ≡ some d
    → create_instance time env bad_json fresh password body sys
      ≡ answer 400
          (λ i. write_json 201 (instance_response time env "" i))
          (Service.create env fresh password d sys)
unfolding create_instance
read_as_created time env bad_json fresh password body sys d h = rw (create_instance, h)

created_json :
    (of_null : String) (j : Json) → req of_null (response (write_json 201 j)) ≡ ok (some j)
unfolding req
created_json of_null j = refl

-- The dashboard's body of a creation as the controller reads it.
abbrev pub received : CreateData → CreateRequest
received d = record {
  name = d.name;
  vpc_id = d.vpc_id;
  vcpus = d.vcpus;
  ram_mb = d.ram_mb;
  disk_gb = d.disk_gb;
  os_image = d.os_image;
  ssh_pubkey = or_else d.ssh_pubkey "";
}

-- The numbers go into an `int`.
abbrev pub IsSmall : CreateData → Type 0
IsSmall d =
    (ltb d.vcpus int_limit ≡ true)
    × (ltb d.ram_mb int_limit ≡ true)
    × (ltb d.disk_gb int_limit ≡ true)

read_create-create_json :
    (d : CreateData) → IsSmall d → read_create (create_json d) ≡ some (received d)
unfolding read_create create_json set_fields set_field same_name
read_create-create_json d (vcpus, ram, disk) = elim (Option-cases d.ssh_pubkey) [
  | inl e ↦
      rw
        (
          read_create,
          create_json,
          set_fields,
          set_field,
          digits_from-decimal d.vcpus,
          vcpus,
          set_field,
          digits_from-decimal d.ram_mb,
          ram,
          set_field,
          digits_from-decimal d.disk_gb,
          disk,
          set_field,
          e,
        )
        refl
  | inr (key, e) ↦
      rw
        (
          read_create,
          create_json,
          set_fields,
          set_field,
          digits_from-decimal d.vcpus,
          vcpus,
          set_field,
          digits_from-decimal d.ram_mb,
          ram,
          set_field,
          digits_from-decimal d.disk_gb,
          disk,
          set_field,
          e,
        )
        refl
]

-- A creation that the dashboard posts, of which no statement fails, for a fresh id that no instance has and
-- with numbers that go into an `int`. Either the caller of `api` gets exactly the error with which no
-- place was found, or that of a number too large for its column, and nothing has changed; or a place is
-- found and the numbers fit, and then the caller gets the new row, without the password, and the row is
-- the first of the database.
pub creation_answered :
    (time : ℕ → String) (env : Env) (of_null bad_json fresh password : String) (form : CreateData)
    (sys : System)
    → IsSmall form
    → All (λ (i : InstanceRow). (i.id == fresh) ≡ false) sys.db.instances
    → env.trouble ≡ no_trouble
    → let answered = create_instance time env bad_json fresh password (create_json form) sys in
      ((m : String) × (req of_null (response answered.0) ≡ err m)
        × (answered.1 ≡ sys)
        × ((find_place env (received form) sys.db ≡ err m)
            ⊎ ((m ≡ "create instance: " <> env.too_large)
                × (Rows.fits form.vcpus form.ram_mb form.disk_gb ≡ false))))
      ⊎ ((p : Place) × (find_place env (received form) sys.db ≡ ok p)
          × (Rows.fits form.vcpus form.ram_mb form.disk_gb ≡ true)
          × (req of_null (response answered.0)
              ≡ ok (
                  some (
                    instance_response time env ""
                      (placed_row env fresh password (received form) p))))
          × (answered.1.db.instances
              ≡ placed_row env fresh password (received form) p ∷ sys.db.instances))
creation_answered time env of_null bad_json fresh password form sys small new calm =
    let d = received form in
    let read =
      read_as_created time env bad_json fresh password (create_json form) sys d
        (read_create-create_json form small) in
    elim (create_whole env fresh password d sys new) [
      | inl (m, none_of, e) ↦ inl (
        m,
        rw (read, e) (req-write_error of_null 400 m (omega arith)),
        rw (read, e) refl,
        inl none_of,
      )
      | inr (p, found, inl (m, e, inl broken)) ↦ absurd (cc (calm, broken))
      | inr (p, found, inl (m, e, inr (same, large))) ↦ inl (
        "create instance: " <> m,
        rw (read, e) (req-write_error of_null 400 ("create instance: " <> m) (omega arith)),
        rw (read, e) refl,
        inr (ap (λ t. "create instance: " <> t) same, large),
      )
      | inr (p, found, inr (fits, inl (m, broken, e))) ↦ absurd (cc (calm, broken))
      | inr (p, found, inr (fits, inr (inl (m, broken, e)))) ↦ absurd (cc (calm, broken))
      | inr (p, found, inr (fits, inr (inr (quiet, e)))) ↦
          inr (p, found, fits, rw (read, e) (created_json of_null _), rw (read, e) refl)
    ]

-- An instance as the client reads it.
abbrev pub api_instance : (ℕ → String) → InstanceRow → ApiInstance
api_instance time i = record {
  id = i.id;
  name = i.name;
  status = i.status;
  node_id = i.node_id;
  vpc_id = i.vpc_id;
  vcpus = i.vcpus;
  ram_mb = i.ram_mb;
  disk_gb = i.disk_gb;
  ip_address = i.ip_address;
  os_image = i.os_image;
  password = i.password;
  created_at = time i.created_at;
  updated_at = time i.updated_at;
}

abbrev found : (ℕ → String) → Option InstanceRow → Option ApiInstance
found time none = none
found time (some i) = some (api_instance time i)

-- The response of `remove_instance` is that of `delete_instance`, for the instance that the store has,
-- and a service whose `Delete` does not fail then.
pub remove_instance-delete_instance :
    (time : ℕ → String) (env : Env) (id : String) (sys : System)
    → (remove_instance time env id sys).0 ≡ delete_instance (found time (Rows.get id sys.db)) none
unfolding remove_instance delete_instance Service.delete
remove_instance-delete_instance time env id sys = elim (Option-cases (Rows.get id sys.db)) [
  | inl e ↦ rw (remove_instance, e) refl
  | inr (i, e) ↦ elim (Bool-cases (i.status == "running")) [
    | inl on ↦ rw (remove_instance, e, on) refl
    | inr off ↦ rw (remove_instance, e, off, Service.delete, e) refl
  ]
]
