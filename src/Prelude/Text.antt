-- ===== src/Prelude/Text.antt =====
-- The parts of JavaScript's `String` that the pages use: `trim`, `includes`, `split('/')` and the
-- decimal form of a number. A text is a list of code points; JavaScript's is one of UTF-16 code
-- units, which makes no difference to these functions on well-formed text.
use Prim.Native.Char.{Char, code}
use text.Mathlib.TextLemmas.{nil-append, cons-append}
use rig_stack.Prelude.{
  ℕ, zero, suc, ◌+◌, ◌-◌, ◌*◌, ◌/◌, ◌%◌, ◌<◌, String, ◌<>◌, ◌≡◌, ap, ◌∙◌, refl, ◌≢◌, Bool, true,
  false, ◌||◌, ◌&&◌, List, [], ◌∷◌, ◌++◌, arith, eqb, ltb, leb, if◌then◌else◌, sym, Bool-cases, inl,
  inr, ltb→lt,
}

-- WhiteSpace and LineTerminator of ECMA-262, which `trim` removes.
abbrev pub is_space : ℕ → Bool
is_space c =
    (leb 9 c && leb c 13)
    || eqb c 32
    || eqb c 160
    || eqb c 0x1680
    || (leb 0x2000 c && leb c 0x200a)
    || eqb c 0x2028
    || eqb c 0x2029
    || eqb c 0x202f
    || eqb c 0x205f
    || eqb c 0x3000
    || eqb c 0xfeff

trim_start : String → String
trim_start String.[] = ""
trim_start (String.◌∷◌ c s) = if is_space (code c) then trim_start s else String.◌∷◌ c s

-- Put a character before a text that was trimmed at its end.
before_trimmed : Char → String → String
before_trimmed c String.[] = if is_space (code c) then "" else String.◌∷◌ c ""
before_trimmed c (String.◌∷◌ d s) = String.◌∷◌ c (String.◌∷◌ d s)

trim_end : String → String
trim_end String.[] = ""
trim_end (String.◌∷◌ c s) = before_trimmed c (trim_end s)

unfoldable pub trim : String → String
unfolding trim_start trim_end before_trimmed
trim s = trim_end (trim_start s)

abbrev pub begins_with : String → String → Bool
begins_with s String.[] = true
begins_with String.[] (String.◌∷◌ d t) = false
begins_with (String.◌∷◌ c s) (String.◌∷◌ d t) = eqb (code c) (code d) && begins_with s t

unfoldable pub includes : String → String → Bool
includes String.[] sub = begins_with "" sub
includes (String.◌∷◌ c s) sub = begins_with (String.◌∷◌ c s) sub || includes s sub

-- The empty search text is found everywhere.
pub includes_nil : (s : String) → includes s "" ≡ true
unfolding includes
includes_nil String.[] = refl
includes_nil (String.◌∷◌ c s) = refl

trimmed : trim "  web 01\n " ≡ "web 01"
unfolding trim
trimmed = refl

found : includes "web-01" "b-0" ≡ true
unfolding includes
found = refl

-- What stands in front of the first part of a split text.
abbrev pub onto_head : Char → List String → List String
onto_head c [] = (String.◌∷◌ c "") ∷ []
onto_head c (p ∷ ps) = (String.◌∷◌ c p) ∷ ps

unfoldable pub split_slash : String → List String
split_slash String.[] = "" ∷ []
split_slash (String.◌∷◌ c s) =
    if eqb (code c) b'/' then "" ∷ split_slash s else onto_head c (split_slash s)

-- A text with no slash in it.
abbrev pub NoSlash : String → Type 0
NoSlash String.[] = Unit
NoSlash (String.◌∷◌ c s) = (code c ≢ b'/') × NoSlash s

split_slash-cons : (s : String) → split_slash s ≢ []
unfolding split_slash
split_slash-cons String.[] = λ e. cc
split_slash-cons (String.◌∷◌ c s) = ground arith

pub split_slash_of_NoSlash : (s : String) → NoSlash s → split_slash s ≡ s ∷ []
unfolding split_slash
split_slash_of_NoSlash String.[] h = refl
split_slash_of_NoSlash (String.◌∷◌ c s) h = ground (arith, split_slash_of_NoSlash s h.1)

-- A slash splits a text into the parts before it and the parts after it.
pub split_slash-append :
    (s t : String) → split_slash (s <> (String.◌∷◌ "/" t)) ≡ split_slash s ++ split_slash t
unfolding split_slash
split_slash-append String.[] t = rw nil-append
split_slash-append (String.◌∷◌ c s) t =
    rw cons-append (ground (arith, split_slash-append s t, split_slash-cons s))

-- The same, of a slash that a template literal puts between two texts.
pub split_slash-slash :
    (s t : String) → split_slash (s <> "/" <> t) ≡ split_slash s ++ split_slash t
split_slash-slash s t =
    ap (λ u. split_slash (s <> u)) (cons-append "/" "" t ∙ ap (String.◌∷◌ "/") (nil-append t))
    ∙ split_slash-append s t

-- The first characters of a text: `substring(0, n)`, and `t[:n]` of Go for a text that is as long.
unfoldable pub take_chars : ℕ → String → String
take_chars zero t = ""
take_chars (suc n) String.[] = ""
take_chars (suc n) (String.◌∷◌ c t) = String.◌∷◌ c (take_chars n t)

-- The decimal digit of a number below ten.
unfoldable pub digit : ℕ → String
digit zero = "0"
digit (suc zero) = "1"
digit (suc (suc zero)) = "2"
digit (suc (suc (suc zero))) = "3"
digit (suc (suc (suc (suc zero)))) = "4"
digit (suc (suc (suc (suc (suc zero))))) = "5"
digit (suc (suc (suc (suc (suc (suc zero)))))) = "6"
digit (suc (suc (suc (suc (suc (suc (suc zero))))))) = "7"
digit (suc (suc (suc (suc (suc (suc (suc (suc zero)))))))) = "8"
digit _ = "9"

-- `String(n)` of a whole number below 2^53; the fuel is above the number of digits.
unfoldable pub decimal_from : ℕ → ℕ → String
decimal_from zero n = ""
decimal_from (suc fuel) n =
    let front = decimal_from fuel (n / 10) in if ltb n 10 then digit n else front <> digit (n % 10)

unfoldable pub decimal : ℕ → String
unfolding decimal_from digit
decimal n = decimal_from (suc n) n

-- The number that some digits stand for, behind those of `front`.
read_digits : ℕ → String → ℕ
read_digits front String.[] = front
read_digits front (String.◌∷◌ c s) = read_digits (front * 10 + (code c - b'0')) s

read_digits-append :
    (front : ℕ) (s t : String) → read_digits front (s <> t) ≡ read_digits (read_digits front s) t
unfolding read_digits
read_digits-append front String.[] t = rw (nil-append t)
read_digits-append front (String.◌∷◌ c s) t =
    rw (cons-append c s t, read_digits-append (front * 10 + (code c - b'0')) s t)

read_digits-digit : (front n : ℕ) → n < 10 → read_digits front (digit n) ≡ front * 10 + n
unfolding read_digits digit
read_digits-digit front zero h = omega arith
read_digits-digit front (suc zero) h = omega arith
read_digits-digit front (suc (suc zero)) h = omega arith
read_digits-digit front (suc (suc (suc zero))) h = omega arith
read_digits-digit front (suc (suc (suc (suc zero)))) h = omega arith
read_digits-digit front (suc (suc (suc (suc (suc zero))))) h = omega arith
read_digits-digit front (suc (suc (suc (suc (suc (suc zero)))))) h = omega arith
read_digits-digit front (suc (suc (suc (suc (suc (suc (suc zero))))))) h = omega arith
read_digits-digit front (suc (suc (suc (suc (suc (suc (suc (suc zero)))))))) h = omega arith
read_digits-digit front (suc (suc (suc (suc (suc (suc (suc (suc (suc zero))))))))) h = omega arith
read_digits-digit front (suc (suc (suc (suc (suc (suc (suc (suc (suc (suc n)))))))))) h =
    omega arith

read_digits-decimal_from : (fuel n : ℕ) → n < fuel → read_digits 0 (decimal_from fuel n) ≡ n
unfolding decimal_from
read_digits-decimal_from zero n h = omega arith
read_digits-decimal_from (suc fuel) n h = elim (Bool-cases (ltb n 10)) [
  | inl low ↦ rw (decimal_from, low) (read_digits-digit 0 n (ltb→lt n 10 low) ∙ omega arith)
  | inr high ↦
      rw
        (
          decimal_from,
          high,
          read_digits-append 0 (decimal_from fuel (n / 10)) (digit (n % 10)),
          read_digits-decimal_from fuel (n / 10) (ground arith),
          read_digits-digit (n / 10) (n % 10) (omega arith),
        )
        (omega arith)
]

-- Two numbers that are printed alike are the same.
pub decimal_injective : (m n : ℕ) → decimal m ≡ decimal n → m ≡ n
unfolding decimal
decimal_injective m n e =
    sym (read_digits-decimal_from (suc m) m (omega arith))
    ∙ ap (read_digits 0) e
    ∙ read_digits-decimal_from (suc n) n (omega arith)

printed : decimal 20480 ≡ "20480"
unfolding decimal
printed = refl
