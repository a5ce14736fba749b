-- ===== src/Controller/Store/Laws.antt =====
-- controller/internal/store/postgres: what the statements find, count and leave as it is.
use mathlib.Core.List.{Memᴰ}
use mathlib.Core.Option.{some-injective}
use rig_stack.Prelude.{
  ◌+◌, String, ◌==◌, true, false, ◌&&◌, List, [], ◌∷◌, ◌≡◌, refl, ap, arith, keep, All, is_some,
  length, eq_refl, Bool-cases, inl, inr, some, sym, ◌∙◌, eq_iff,
}
use rig_stack.Controller.Tables.{InstanceRow, Db}
use rig_stack.Controller.Store.{find_row, update_rows, delete_rows}
use rig_stack.Controller.Store.Instances.{delete, count_by_vpc}

module _ {ℓ} {A : Type ℓ} (key : A → String) where
  -- A row of the table is found by its key.
  pub find_row-mem : (a : A) (rs : List A) → Memᴰ a rs → is_some (find_row key (key a) rs) ≡ true
  unfolding find_row
  find_row-mem a [] m = elim m [ ]
  find_row-mem a (r ∷ rs) (Memᴰ.head e) = rw (← e, eq_refl (key a))
  find_row-mem a (r ∷ rs) (Memᴰ.tail m) = elim (Bool-cases (key r == key a)) [
    | inl e ↦ rw e
    | inr e ↦ rw e (find_row-mem a rs m)
  ]

  -- A statement on a key that no row has changes nothing.
  pub update_rows-absent :
      (id : String) (change : A → A) (rs : List A)
      → All (λ r. (key r == id) ≡ false) rs
      → update_rows key id change rs ≡ rs
  update_rows-absent id change [] h = refl
  update_rows-absent id change (r ∷ rs) (new, h) = rw (new, update_rows-absent id change rs h)

  -- The row that is found has the key.
  pub find_row-key : (id : String) (rs : List A) (a : A) → find_row key id rs ≡ some a → key a ≡ id
  unfolding find_row
  find_row-key id [] a h = cc
  find_row-key id (r ∷ rs) a h = elim (Bool-cases (key r == id)) [
    | inl e ↦ ap key (sym (some-injective _ _ (rw (find_row, e) at h))) ∙ (eq_iff (key r) id).0 e
    | inr e ↦ find_row-key id rs a (rw (find_row, e) at h)
  ]

  module _ (id : String) (change : A → A) (kept : (r : A) → key (change r) ≡ key r) where
    pub find_row-update_rows :
        (rs : List A) (a : A)
        → find_row key id rs ≡ some a
        → find_row key id (update_rows key id change rs) ≡ some (change a)
    unfolding find_row
    find_row-update_rows [] a h = cc
    find_row-update_rows (r ∷ rs) a h = elim (Bool-cases (key r == id)) [
      | inl e ↦
          rw (e, kept r, e) (ap (λ b. some (change b)) (some-injective _ _ (rw (find_row, e) at h)))
      | inr e ↦ rw (e, e) (find_row-update_rows rs a (rw (find_row, e) at h))
    ]

    pub delete_rows-update_rows :
        (rs : List A) → delete_rows key id (update_rows key id change rs) ≡ delete_rows key id rs
    delete_rows-update_rows [] = refl
    delete_rows-update_rows (r ∷ rs) = elim (Bool-cases (key r == id)) [
      | inl e ↦ rw (e, kept r, e) (delete_rows-update_rows rs)
      | inr e ↦ rw (e, e, delete_rows-update_rows rs)
    ]

-- A statement on one key leaves the row of another as it is.
pub find_row-other {ℓ} :
    {A : Type ℓ} (key : A → String) (k id : String) (change : A → A)
    → ((r : A) → key (change r) ≡ key r)
    → (k == id) ≡ false
    → (rs : List A) → find_row key id (update_rows key k change rs) ≡ find_row key id rs
unfolding find_row
find_row-other key k id change kept other [] = refl
find_row-other key k id change kept other (r ∷ rs) = elim (Bool-cases (key r == k)) [
  | inl e ↦
      let apart = ap (λ t. t == id) ((eq_iff (key r) k).0 e) ∙ other in
      rw (e, kept r, apart) (find_row-other key k id change kept other rs)
  | inr e ↦ rw (e, find_row-other key k id change kept other rs)
]

-- The rows of a VPC that have an id.
abbrev pub of_vpc : String → String → List InstanceRow → List InstanceRow
of_vpc vpc id rs = keep (λ (i : InstanceRow). i.id == id && i.vpc_id == vpc) rs

count_rows :
    (vpc id : String) (rs : List InstanceRow)
    → length (
          keep
            (λ (i : InstanceRow). i.vpc_id == vpc)
            (delete_rows (λ (i : InstanceRow). i.id) id rs))
        + length (of_vpc vpc id rs)
      ≡ length (keep (λ (i : InstanceRow). i.vpc_id == vpc) rs)
count_rows vpc id [] = omega arith
count_rows vpc id (r ∷ rs) = ground (arith, count_rows vpc id rs)

-- A deletion takes from the count of a VPC its rows of that id.
pub count-delete :
    (vpc id : String) (db : Db)
    → count_by_vpc vpc (delete id db) + length (of_vpc vpc id db.instances) ≡ count_by_vpc vpc db
unfolding count_by_vpc delete
count-delete vpc id db = count_rows vpc id db.instances
