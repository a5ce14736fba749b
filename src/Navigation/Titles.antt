-- ===== src/Navigation/Titles.antt =====
-- The title that the header gives to a path.
use Prim.Native.String.{count}
use text.Mathlib.TextLemmas.{nil-append, cons-append, append_assoc, length-cons}
use rig_stack.Prelude.{
  String, ◌<>◌, ◌==◌, false, none, some, List, [], ◌∷◌, ◌≡◌, ◌≢◌, refl, sym, ap, ◌∙◌, ◌⊎◌, eq-false,
  Bool-cases, inl, inr,
}
use rig_stack.Prelude.Text.{NoSlash, split_slash, split_slash_of_NoSlash, split_slash-slash}
use rig_stack.Navigation.{
  drop_chars, raw_path, normalized, meta_at, meta_of, page_meta, Meta, layout, crumbs_of,
}

drop_chars-append : (s t : String) → drop_chars (count s) (s <> t) ≡ t
unfolding drop_chars
drop_chars-append String.[] t = rw nil-append
drop_chars-append (String.◌∷◌ c s) t =
    rw (length-cons c s, cons-append c s t) (drop_chars-append s t)

raw_path-demo : (base path : String) → base ≢ "" → path ≢ "" → raw_path base (base <> path) ≡ path
unfolding raw_path
raw_path-demo base path b p =
    rw (eq-false base "" b, drop_chars-append base path, eq-false path "" p)

-- The header of a page of the live demo has the heading and the crumbs of the same path of the
-- application, for a base and a path that are not empty.
pub demo_titles :
    (base path : String)
    → base ≢ ""
    → path ≢ ""
    → ((layout base (base <> path)).heading ≡ (layout "" path).heading)
      × ((layout base (base <> path)).crumbs ≡ (layout "" path).crumbs)
unfolding layout
demo_titles base path b p = (rw (raw_path-demo base path b p), rw (raw_path-demo base path b p))

-- The parts of the path of an instance.
instance_parts :
    (id : String) → NoSlash id → split_slash ("/instances/" <> id) ≡ "" ∷ "instances" ∷ id ∷ []
unfolding split_slash
instance_parts id h =
    ap split_slash (append_assoc "/instances" "/" id)
    ∙ split_slash-slash "/instances" id
    ∙ rw (split_slash_of_NoSlash id h)

parts_differ : (x id : String) → ◌≢◌ {A = List String} ("" ∷ x ∷ []) ("" ∷ "instances" ∷ id ∷ [])
parts_differ x id e = cc

-- A path of three parts is none of two.
ne_key :
    (raw key x id : String)
    → split_slash raw ≡ "" ∷ "instances" ∷ id ∷ []
    → split_slash key ≡ "" ∷ x ∷ []
    → (key == raw) ≡ false
ne_key raw key x id three two =
    eq-false key raw (λ e. parts_differ x id (sym two ∙ ap split_slash e ∙ three))

abbrev instance_detail : Meta
instance_detail = record { title = "Instance Detail"; parent = some "Compute" }

-- No key of the table but that of the detail page has three parts.
meta_at-instance :
    (raw id : String)
    → split_slash raw ≡ "" ∷ "instances" ∷ id ∷ []
    → (meta_at raw page_meta ≡ none) ⊎ (meta_at raw page_meta ≡ some instance_detail)
unfolding meta_at split_slash
meta_at-instance raw id three =
    rw
      (
        ne_key raw "/" "" id three refl,
        ne_key raw "/instances" "instances" id three refl,
        ne_key raw "/nodes" "nodes" id three refl,
        ne_key raw "/storage" "storage" id three refl,
        ne_key raw "/containers" "containers" id three refl,
        ne_key raw "/kubernetes" "kubernetes" id three refl,
        ne_key raw "/databases" "databases" id three refl,
        ne_key raw "/network" "network" id three refl,
        ne_key raw "/loadbalancer" "loadbalancer" id three refl,
        ne_key raw "/images" "images" id three refl,
        ne_key raw "/iam" "iam" id three refl,
      )
      (elim (Bool-cases ("/instances/:id" == raw)) [
        | inl e ↦ rw e (inr refl)
        | inr e ↦ rw e (inl refl)
      ])

normalized-instance :
    (id : String) → NoSlash id → id ≢ "" → normalized ("/instances/" <> id) ≡ "/instances/:id"
unfolding normalized
normalized-instance id h n = rw (instance_parts id h, eq-false id "" n)

meta_of-instance :
    (id : String) → NoSlash id → id ≢ "" → meta_of ("/instances/" <> id) ≡ instance_detail
unfolding meta_of
meta_of-instance id h n = elim (meta_at-instance ("/instances/" <> id) id (instance_parts id h)) [
  | inl e ↦ rw (e, normalized-instance id h n)
  | inr e ↦ rw e
]

-- The detail page of every instance, whose id is not empty and has no slash, has the title "Instance Detail" below
-- "Compute".
pub instance_title :
    (id : String)
    → NoSlash id
    → id ≢ ""
    → ((layout "" ("/instances/" <> id)).heading ≡ "Instance Detail")
      × ((layout "" ("/instances/" <> id)).crumbs ≡ "RigStack" ∷ "Compute" ∷ "Instance Detail" ∷ [])
unfolding layout
instance_title id h n =
    let found = meta_of-instance id h n in (ap (λ m. m.title) found, ap crumbs_of found)
