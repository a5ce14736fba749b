-- ===== src/Controller/Store.antt =====
-- controller/internal/store/postgres/{node,vpc,instance}.go: the statements of the stores, on the
-- tables of controller/migrations. A row that another table refers to is not deleted, and a row that
-- refers to one that is not there is not inserted: the statement fails. A lost
-- connection and a cancelled request are in the services, for the statements of a creation. Each new id is given, as `uuid_generate_v4` gives it.
pub mod Nodes
pub mod Vpcs
pub mod Instances
pub mod Laws
pub mod Referring
use rig_stack.Prelude.{
  ℕ, ◌+◌, String, ◌==◌, Bool, ◌&&◌, ◌||◌, not, Option, none, some, List, [], ◌∷◌, map, keep, any,
  is_some, length, leb, ltb, truthy, if◌then◌else◌,
}
use rig_stack.Controller.Tables.{NodeRow, VpcRow, InstanceRow, Db, Env}

-- The row of a key.
unfoldable pub find_row {ℓ} : {A : Type ℓ} → (A → String) → String → List A → Option A
find_row key id [] = none
find_row key id (r ∷ rs) = if key r == id then some r else find_row key id rs

-- The table after an UPDATE and after a DELETE of the rows of a key.
abbrev pub update_rows {ℓ} : {A : Type ℓ} → (A → String) → String → (A → A) → List A → List A
update_rows key id change rs = map (λ r. if key r == id then change r else r) rs

abbrev pub delete_rows {ℓ} : {A : Type ℓ} → (A → String) → String → List A → List A
delete_rows key id rs = keep (λ r. not (key r == id)) rs
