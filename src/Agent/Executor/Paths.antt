-- ===== src/Agent/Executor/Paths.antt =====
-- agent/internal/executor/executor.go and agent/internal/storage/local.go: where the files are that the
-- commands write and remove.
use Prim.Native.Char.{code}
use Prim.Native.String.{count}
use text.Mathlib.TextLemmas.{length-append, nil-append, cons-append}
use rig_stack.Prelude.{
  ℕ, ◌≤◌, ◌<◌, String, ◌<>◌, true, ◌≡◌, ◌≢◌, refl, ◌∙◌, ap, sym, subst, List, [], ◌∷◌, arith,
  and-true, truthy, eq-false,
}
use rig_stack.Prelude.Text.{NoSlash, split_slash, split_slash_of_NoSlash, split_slash-slash}
use rig_stack.Agent.Storage.{cleaned, from_root, join, paths_for}
use rig_stack.Agent.Executor.{safe_image_name, all_safe, safe_char, image_path}

-- A name that stands for itself in a path.
abbrev pub IsPlain : String → Type 0
IsPlain t = NoSlash t × ((t ≢ "") × ((t ≢ ".") × (t ≢ "..")))

cleaned-plain : (front : List String) (t : String) → IsPlain t → cleaned front (t ∷ []) ≡ t ∷ front
unfolding cleaned
cleaned-plain front t (no_slash, (a, (b, c))) =
    rw (cleaned, eq-false t "" a, eq-false t "." b, eq-false t ".." c)

images_dir : (t : String) → IsPlain t → (paths_for t).dir ≡ "/var/lib/rigstack/images" <> "/" <> t
unfolding paths_for join cleaned from_root split_slash
images_dir t plain =
    rw
      (
        split_slash-slash "/var/lib/rigstack/images" t,
        split_slash_of_NoSlash t plain.0,
        cleaned-plain ("images" ∷ "rigstack" ∷ "lib" ∷ "var" ∷ []) t plain,
      )
      refl

-- The directory of a machine whose id is a plain name lies directly in that of the images.
pub parts_of_images :
    (t : String)
    → IsPlain t
    → split_slash (paths_for t).dir ≡ "" ∷ "var" ∷ "lib" ∷ "rigstack" ∷ "images" ∷ t ∷ []
unfolding split_slash
parts_of_images t plain =
    ap split_slash (images_dir t plain)
    ∙ split_slash-slash "/var/lib/rigstack/images" t
    ∙ ap (λ ps. "" ∷ "var" ∷ "lib" ∷ "rigstack" ∷ "images" ∷ ps) (split_slash_of_NoSlash t plain.0)

safe_char-slash : (c : ℕ) → safe_char c ≡ true → c ≢ b'/'
unfolding safe_char
safe_char-slash c h e = cc (ap safe_char e)

NoSlash-append : (s t : String) → NoSlash s → NoSlash t → NoSlash (s <> t)
NoSlash-append String.[] t hs ht = subst NoSlash (sym (nil-append t)) ht
NoSlash-append (String.◌∷◌ c s) t (h, hs) ht =
    subst NoSlash (sym (cons-append c s t)) (h, NoSlash-append s t hs ht)

all_safe-NoSlash : (t : String) → all_safe t ≡ true → NoSlash t
unfolding all_safe
all_safe-NoSlash String.[] h = tt
all_safe-NoSlash (String.◌∷◌ c t) h =
    let (now, later) = and-true (safe_char (code c)) (all_safe t) h in
    (safe_char-slash (code c) now, all_safe-NoSlash t later)

longer : (t : String) → 3 ≤ count (t <> ".qcow2")
longer t = omega (arith, length-append t ".qcow2")

ne_by_count : (s t : String) → count t < count s → s ≢ t
ne_by_count s t h e = omega (arith, ap count e)

image_file-IsPlain : (t : String) → all_safe t ≡ true → IsPlain (t <> ".qcow2")
unfolding all_safe safe_char
image_file-IsPlain t h = (
  NoSlash-append t ".qcow2" (all_safe-NoSlash t h) (all_safe-NoSlash ".qcow2" refl),
  (
    ne_by_count _ "" (omega (arith, longer t)),
    (ne_by_count _ "." (omega (arith, longer t)), ne_by_count _ ".." (omega (arith, longer t))),
  ),
)

-- The file of an image whose name the agent accepts lies directly in the directory of base images.
pub image_in_base :
    (name : String)
    → safe_image_name name ≡ true
    → split_slash (image_path name)
      ≡ "" ∷ "var" ∷ "lib" ∷ "rigstack" ∷ "base" ∷ (name <> ".qcow2") ∷ []
unfolding image_path safe_image_name join from_root cleaned split_slash
image_in_base name h =
    let plain = image_file-IsPlain name (and-true (truthy name) (all_safe name) h).1 in
    rw
      (
        split_slash-slash "/var/lib/rigstack/base" (name <> ".qcow2"),
        split_slash_of_NoSlash (name <> ".qcow2") plain.0,
        cleaned-plain ("base" ∷ "rigstack" ∷ "lib" ∷ "var" ∷ []) (name <> ".qcow2") plain,
      )
      (split_slash-slash "/var/lib/rigstack/base" (name <> ".qcow2")
        ∙ ap (λ ps. "" ∷ "var" ∷ "lib" ∷ "rigstack" ∷ "base" ∷ ps)
            (split_slash_of_NoSlash (name <> ".qcow2") plain.0))
