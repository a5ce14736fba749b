-- ===== src/Demo/Buckets.antt =====
-- frontend/src/pages/ObjectStorage.tsx and frontend/src/pages/BucketDetail.tsx: the buckets of the
-- live demo. `grouped` is `toLocaleString` of a number.
pub mod Keys
use Prim.Native.Char.{code}
use rig_stack.Prelude.{
  ℕ, zero, suc, String, ◌<>◌, ◌==◌, Bool, Option, none, some, List, [], ◌∷◌, map, keep, or_else,
  eqb, if◌then◌else◌,
}
use rig_stack.Prelude.Text.{split_slash, take_chars, includes}
use rig_stack.ViewMode.{Storage, mounted_mode}
use rig_stack.Demo.Types.{Bucket, BucketObject}
use rig_stack.Demo.Data.Buckets.{buckets, bucket_objects}
use rig_stack.Demo.Shown.{Cell, text, label, link, Card, Body, by_mode}

module _ (grouped : ℕ → String) where
  abbrev pub access_label : Bucket → Cell
  access_label b =
      if b.access == "public"
      then label "Público" "text-sky-600 bg-sky-50 border border-sky-200"
      else label "Privado" "text-slate-500 bg-slate-50 border border-slate-200"

  abbrev pub headings : List String
  headings = "Nome" ∷ "Acesso" ∷ "Tamanho" ∷ "Objetos" ∷ "Região" ∷ "Criado em" ∷ "Ações" ∷ []

  -- The link leads to the page of the bucket below the route of this page.
  unfoldable pub bucket_row : Bucket → List Cell
  bucket_row b =
      link b.name ("bucket/" <> b.id)
      ∷ access_label b
      ∷ text b.size
      ∷ text (grouped b.objects)
      ∷ text b.region
      ∷ text b.created_at
      ∷ []

  unfoldable pub bucket_card : Bucket → Card
  bucket_card b = record {
    heading = b.name;
    line = none;
    mark = access_label b;
    items = ("Tamanho", b.size) ∷ ("Objetos", grouped b.objects) ∷ ("Região", b.region) ∷ [];
    target = some ("bucket/" <> b.id);
  }

  -- `ObjectStorage` in a mode, and as it is mounted.
  abbrev pub storage_page : String → Body
  storage_page mode = by_mode mode headings bucket_row bucket_card buckets

  abbrev pub object_storage : Storage → Body
  object_storage storage = storage_page (mounted_mode "object-storage" "list" storage)

-- `buckets.find(b => b.id === id)`.
unfoldable pub find_bucket : String → List Bucket → Option Bucket
find_bucket id [] = none
find_bucket id (b ∷ bs) = if b.id == id then some b else find_bucket id bs

-- `bucketObjects[id]`, where the object has the key itself.
unfoldable pub objects_of : String → List (String × List BucketObject) → Option (List BucketObject)
objects_of id [] = none
objects_of id ((key, os) ∷ rest) = if key == id then some os else objects_of id rest

-- `key.split('/').pop()`: a split text has at least one part.
unfoldable pub last_of : List String → String
last_of [] = ""
last_of (p ∷ []) = p
last_of (p ∷ q ∷ ps) = last_of (q ∷ ps)

unfoldable pub file_name : String → String
unfolding last_of split_slash
file_name key = last_of (split_slash key)

-- `key.lastIndexOf('/') + 1`.
unfoldable pub behind_last_slash : String → ℕ
behind_last_slash String.[] = 0
behind_last_slash (String.◌∷◌ c s) = elim (behind_last_slash s) [
  | zero ↦ if eqb (code c) b'/' then 1 else 0
  | suc n ↦ suc (suc n)
]

-- `key.substring(0, key.lastIndexOf('/') + 1)`.
unfoldable pub directory : String → String
unfolding behind_last_slash take_chars
directory key = take_chars (behind_last_slash key) key

-- A row of a folder and of a file.
pub data ObjectRow : Type 0 where
  folder : String → String → ObjectRow
  file : String → Option String → String → String → ObjectRow

abbrev pub folder_row : BucketObject → ObjectRow
folder_row o = folder o.key o.last_modified

unfoldable pub file_row : BucketObject → ObjectRow
unfolding file_name directory
file_row o =
    file (file_name o.key) (if includes o.key "/" then some (directory o.key) else none) o.size
      o.last_modified

-- The rows of the folders, then those of the files.
abbrev pub folders : List BucketObject → List BucketObject
folders os = keep (λ (o : BucketObject). o.kind == "folder") os

abbrev pub files : List BucketObject → List BucketObject
files os = keep (λ (o : BucketObject). o.kind == "file") os

pub data Detail : Type 0 where
  not_found : Detail
  shown : String → String → List ObjectRow → List ObjectRow → Detail

-- `BucketDetail`, with the id of the route.
unfoldable pub bucket_detail : (ℕ → String) → String → Detail
unfolding find_bucket objects_of file_row
bucket_detail grouped id =
    let objects = or_else (objects_of id bucket_objects) [] in
    elim (find_bucket id buckets) [
      | none ↦ not_found
      | some b ↦
          shown b.name (b.size <> " · " <> grouped b.objects <> " objects")
            (map folder_row (folders objects)) (map file_row (files objects))
    ]
