-- ===== src/Demo/Buckets/Keys.antt =====
-- frontend/src/pages/BucketDetail.tsx: how the key of a file is shown.
use Prim.Native.Char.{code}
use text.Mathlib.TextLemmas.{nil-append, cons-append}
use rig_stack.Prelude.{
  ℕ, suc, ◌+◌, String, ◌<>◌, List, [], ◌∷◌, length, All, ◌≡◌, ◌⊎◌, refl, ap, ◌∙◌, arith, inl, inr,
  eqb, Bool-cases,
}
use rig_stack.Prelude.Text.{split_slash, take_chars}
use rig_stack.Demo.Types.{BucketObject}
use rig_stack.Demo.Buckets.{last_of, file_name, behind_last_slash, directory, folders, files}

-- A key either has no slash, and then one part, or has one, and then a part before the last.
Split : String → Type 0
Split s =
    ((behind_last_slash s ≡ 0) × (split_slash s ≡ s ∷ []))
    ⊎ ((n : ℕ) × (p : String) × (q : String) × (ps : List String) × (behind_last_slash s ≡ suc n)
        × (split_slash s ≡ p ∷ q ∷ ps))

split : (s : String) → Split s
unfolding Split split_slash behind_last_slash
split String.[] = inl (refl, refl)
split (String.◌∷◌ c s) = elim (Bool-cases (eqb (code c) b'/')) [
  | inl slash ↦ elim (split s) [
    | inl (none_there, one) ↦ inr (0, "", s, [], rw (none_there, slash), rw (slash, one))
    | inr (n, p, q, ps, there, parts) ↦ inr (suc n, "", p, q ∷ ps, rw there, rw (slash, parts))
  ]
  | inr other ↦ elim (split s) [
    | inl (none_there, one) ↦ inl (rw (none_there, other), rw (other, one))
    | inr (n, p, q, ps, there, parts) ↦
        inr (suc n, String.◌∷◌ c p, q, ps, rw there, rw (other, parts))
  ]
]

-- The part of the directory and the name that the row of a file shows are together its key.
pub directory-file_name : (key : String) → directory key <> file_name key ≡ key
unfolding directory file_name split_slash behind_last_slash take_chars last_of Split
directory-file_name String.[] = refl
directory-file_name (String.◌∷◌ c s) = elim (split s) [
  | inl (none_there, one) ↦ elim (Bool-cases (eqb (code c) b'/')) [
    | inl slash ↦
        rw (none_there, slash, one) (cons-append c "" s ∙ ap (String.◌∷◌ c) (nil-append s))
    | inr other ↦ rw (none_there, other, one) (nil-append (String.◌∷◌ c s))
  ]
  | inr (n, p, q, ps, there, parts) ↦
      let rest : take_chars (suc n) s <> last_of (q ∷ ps) ≡ s =
        rw (there, parts) at (directory-file_name s) in
      elim (Bool-cases (eqb (code c) b'/')) [
        | inl slash ↦
            rw (there, slash, parts)
              (cons-append c (take_chars (suc n) s) (last_of (q ∷ ps)) ∙ ap (String.◌∷◌ c) rest)
        | inr other ↦
            rw (there, other, parts)
              (cons-append c (take_chars (suc n) s) (last_of (q ∷ ps)) ∙ ap (String.◌∷◌ c) rest)
      ]
]

-- Where each object is a folder or a file, the page of a bucket has a row for each of them, once.
pub rows_complete :
    (os : List BucketObject)
    → All (λ (o : BucketObject). (o.kind ≡ "folder") ⊎ (o.kind ≡ "file")) os
    → length (folders os) + length (files os) ≡ length os
rows_complete [] h = omega arith
rows_complete (o ∷ os) (inl e, h) = rw e (omega (arith, rows_complete os h))
rows_complete (o ∷ os) (inr e, h) = rw e (omega (arith, rows_complete os h))
