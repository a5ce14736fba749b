-- ===== src/Prelude/Lists.antt =====
-- Lists measured by native numbers, predicates on their members, and weights summed over them.
use Prim.Native.Nat.{ℕ, zero, suc, ◌+◌, ◌≤◌}
use mathlib.Core.Path.{◌≡◌, refl, ap}
use mathlib.Core.Bool.{Bool, true, false, ◌||◌}
use mathlib.Core.Option.{Option, none, some}
use mathlib.Core.List.{List, [], ◌∷◌, ◌++◌, map, Memᴰ}
use native.Mathlib.Omega.{arith}
use mathlib.Core.Path.{sym, ◌∙◌}
use mathlib.Core.Logic.{◌↔◌, ◌⊎◌, inl, inr}
use rig_stack.Prelude.Tests.{if◌then◌else◌, Bool-cases}

module _ {ℓ} {A : Type ℓ} where
  abbrev pub length : List A → ℕ
  length [] = 0
  length (x ∷ xs) = suc (length xs)

  abbrev pub is_empty : List A → Bool
  is_empty [] = true
  is_empty (x ∷ xs) = false

  abbrev pub get_elem? : List A → ℕ → Option A
  get_elem? [] i = none
  get_elem? (x ∷ xs) zero = some x
  get_elem? (x ∷ xs) (suc i) = get_elem? xs i

  -- The members that pass a test, in their order: `Array.prototype.filter`.
  abbrev pub keep : (A → Bool) → List A → List A
  keep p [] = []
  keep p (x ∷ xs) = if p x then x ∷ keep p xs else keep p xs

  abbrev pub any : (A → Bool) → List A → Bool
  any p [] = false
  any p (x ∷ xs) = p x || any p xs

  -- The sum of a weight over the members.
  abbrev pub tally : (A → ℕ) → List A → ℕ
  tally w [] = 0
  tally w (x ∷ xs) = w x + tally w xs

  pub tally-append : (w : A → ℕ) (xs ys : List A) → tally w (xs ++ ys) ≡ tally w xs + tally w ys
  tally-append w [] ys = omega arith
  tally-append w (x ∷ xs) ys = omega (arith, tally-append w xs ys)

  pub length-append : (xs ys : List A) → length (xs ++ ys) ≡ length xs + length ys
  length-append [] ys = omega arith
  length-append (x ∷ xs) ys = omega (arith, length-append xs ys)

  pub length-keep-le : (p : A → Bool) (xs : List A) → length (keep p xs) ≤ length xs
  length-keep-le p [] = omega arith
  length-keep-le p (x ∷ xs) = ground (arith, length-keep-le p xs)

pub length-map {ℓ κ} :
    {A : Type ℓ} {B : Type κ} (f : A → B) (xs : List A) → length (map f xs) ≡ length xs
length-map f [] = refl
length-map f (x ∷ xs) = ap suc (length-map f xs)

module _ {ℓ κ} {A : Type ℓ} (P : A → Type κ) where
  abbrev pub All : List A → Type κ
  All [] = Unit
  All (x ∷ xs) = P x × All xs

  pub All-append : (xs ys : List A) → All xs → All ys → All (xs ++ ys)
  All-append [] ys hx hy = hy
  All-append (x ∷ xs) ys (h, hx) hy = (h, All-append xs ys hx hy)

module _ {ℓ} {A : Type ℓ} where
  mem-cons_cases : {a x : A} {xs : List A} → Memᴰ a (x ∷ xs) → (a ≡ x) ⊎ Memᴰ a xs
  mem-cons_cases (Memᴰ.head e) = inl e
  mem-cons_cases (Memᴰ.tail m) = inr m

  mem-of_keep : (p : A → Bool) (a : A) (xs : List A) → Memᴰ a (keep p xs) → Memᴰ a xs × (p a ≡ true)
  mem-of_keep p a [] m = elim m [ ]
  mem-of_keep p a (x ∷ xs) m = elim (Bool-cases (p x)) [
    | inl e ↦ elim (mem-cons_cases (rw (e, keep) at m)) [
      | inl same ↦ (Memᴰ.head same, ap p same ∙ e)
      | inr later ↦ let (there, good) = mem-of_keep p a xs later in (Memᴰ.tail there, good)
    ]
    | inr e ↦ let (there, good) = mem-of_keep p a xs (rw (e, keep) at m) in (Memᴰ.tail there, good)
  ]

  mem-to_keep : (p : A → Bool) (a : A) (xs : List A) → Memᴰ a xs → p a ≡ true → Memᴰ a (keep p xs)
  mem-to_keep p a [] m good = elim m [ ]
  mem-to_keep p a (x ∷ xs) (Memᴰ.head e) good = rw (ap p (sym e) ∙ good) (Memᴰ.head e)
  mem-to_keep p a (x ∷ xs) (Memᴰ.tail m) good = elim (Bool-cases (p x)) [
    | inl e ↦ rw e (Memᴰ.tail (mem-to_keep p a xs m good))
    | inr e ↦ rw e (mem-to_keep p a xs m good)
  ]

  -- A filtered list holds exactly the members that pass the test.
  pub mem-keep :
      (p : A → Bool) (a : A) (xs : List A) → Memᴰ a (keep p xs) ↔ (Memᴰ a xs × (p a ≡ true))
  mem-keep p a xs = (mem-of_keep p a xs, λ (m, good). mem-to_keep p a xs m good)

-- `slice(0, n)`.
abbrev pub take {ℓ} : {A : Type ℓ} → ℕ → List A → List A
take zero xs = []
take (suc n) [] = []
take (suc n) (x ∷ xs) = x ∷ take n xs
