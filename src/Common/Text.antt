-- ===== src/Common/Text.antt =====
-- Go's strings and the calls that the program makes of package strings. A text is a sequence of
-- Unicode code points; `len` counts the bytes of its UTF-8, as Go does.
use Prim.Native.Char.{Char, char, code}
use Prim.Native.Nat.{ℕ, zero, suc, ◌+◌, ◌-◌, ◌/◌, ◌%◌, ◌<◌, compare, Ordering}
use Prim.Native.String.{String, ◌++◌}
use mathlib.Core.Path.{◌≡◌, refl, ap, ◌∙◌}
use mathlib.Core.Bool.{Bool, true, false, ◌&&◌, ◌||◌}
use mathlib.Core.Logic.{dite, inl, inr}
use native.Mathlib.Decide.{dec_lt}
use native.Mathlib.Omega.{arith}
use financial_crime_complian.Common.Int.{ℤ, pos, negsuc}
use financial_crime_complian.Common.Tests.{leb, eqb, ltb, if◌then◌else◌, Bool-cases}

abbrev pub is_empty : String → Bool
is_empty String.[] = true
is_empty (String.◌∷◌ c s) = false

-- unicode.IsSpace: the code points with the property White_Space.
is_space : ℕ → Bool
is_space c =
    (leb 9 c && leb c 13)
    || eqb c 0x20
    || eqb c 0x85
    || eqb c 0xa0
    || eqb c 0x1680
    || (leb 0x2000 c && leb c 0x200a)
    || eqb c 0x2028
    || eqb c 0x2029
    || eqb c 0x202f
    || eqb c 0x205f
    || eqb c 0x3000

unfoldable pub space : Char → Bool
unfolding is_space
space c = is_space (code c)

trim_left : String → String
trim_left String.[] = String.[]
trim_left (String.◌∷◌ c s) = let rest = trim_left s in if space c then rest else String.◌∷◌ c s

keep_unless_blank : Char → String → String
keep_unless_blank c String.[] = if space c then String.[] else String.◌∷◌ c String.[]
keep_unless_blank c (String.◌∷◌ d s) = String.◌∷◌ c (String.◌∷◌ d s)

trim_right : String → String
trim_right String.[] = String.[]
trim_right (String.◌∷◌ c s) = keep_unless_blank c (trim_right s)

-- strings.TrimSpace
unfoldable pub trim_space : String → String
unfolding space trim_left keep_unless_blank trim_right
trim_space s = trim_right (trim_left s)

-- The character with the number `n` below U+D800, and U+0000 past it, where nothing calls it.
pub below_scalar : (n : ℕ) → n < 0xd800 → compare n 0xd800 ≡ Ordering.lt
below_scalar n h = ground arith

unfoldable pub rune : ℕ → Char
unfolding dec_lt
rune n = dite (dec_lt n 0xd800) (λ h. char n (rw (below_scalar n h) tt)) (λ _. char 0 tt)

-- unicode.ToUpper; `wide` is its table for the code points past ASCII.
upper_rune : (Char → Char) → Char → Char
unfolding rune
upper_rune wide c =
    if ltb (code c) 0x80
    then (if leb b'a' (code c) && leb (code c) b'z' then rune (code c - 32) else c)
    else wide c

-- strings.ToUpper
unfoldable pub to_upper : (Char → Char) → String → String
unfolding upper_rune
to_upper wide String.[] = String.[]
to_upper wide (String.◌∷◌ c s) = String.◌∷◌ (upper_rune wide c) (to_upper wide s)

-- The decimal digits of `n`, by the verb %d: `n` rounds are enough.
digits_onto : ℕ → ℕ → String → String
unfolding rune
digits_onto zero n rest = String.◌∷◌ (rune (48 + n % 10)) rest
digits_onto (suc fuel) n rest =
    let longer = digits_onto fuel (n / 10) (String.◌∷◌ (rune (48 + n % 10)) rest) in
    if ltb n 10 then String.◌∷◌ (rune (48 + n % 10)) rest else longer

unfoldable pub format_int : ℤ → String
unfolding digits_onto
format_int (pos n) = digits_onto n n String.[]
format_int (negsuc n) = "-" ++ digits_onto (suc n) (suc n) String.[]

trims : trim_space "  a b\t\n" ≡ "a b"
unfolding trim_space
trims = refl

uppers : to_upper (λ c. c) "gb1" ≡ "GB1"
unfolding to_upper
uppers = refl

formats : format_int (pos 1000000) ≡ "1000000"
unfolding format_int
formats = refl

keep_unless_blank-trim :
    (c : Char) (s : String)
    → trim_right s ≡ s
    → trim_right (keep_unless_blank c s) ≡ keep_unless_blank c s
unfolding keep_unless_blank trim_right
keep_unless_blank-trim c String.[] h = elim (Bool-cases (space c)) [
  | inl e ↦ simp e
  | inr e ↦ simp e
]
keep_unless_blank-trim c (String.◌∷◌ d s) h = rw h

trim_right_idem : (s : String) → trim_right (trim_right s) ≡ trim_right s
unfolding trim_right
trim_right_idem String.[] = refl
trim_right_idem (String.◌∷◌ c s) = keep_unless_blank-trim c (trim_right s) (trim_right_idem s)

-- A text that begins with no space, the empty one included.
abbrev StartsBlack : String → Type 0
StartsBlack String.[] = Unit
StartsBlack (String.◌∷◌ c s) = space c ≡ false

trim_left-StartsBlack : (s : String) → StartsBlack (trim_left s)
unfolding trim_left
trim_left-StartsBlack String.[] = tt
trim_left-StartsBlack (String.◌∷◌ c s) = elim (Bool-cases (space c)) [
  | inl e ↦ rw e (trim_left-StartsBlack s)
  | inr e ↦ rw e e
]

trim_right-StartsBlack : (s : String) → StartsBlack s → StartsBlack (trim_right s)
unfolding trim_right keep_unless_blank
trim_right-StartsBlack String.[] h = tt
trim_right-StartsBlack (String.◌∷◌ c s) h = kept c (trim_right s) h
  where
    kept : (c : Char) (t : String) → space c ≡ false → StartsBlack (keep_unless_blank c t)
    kept c String.[] e = rw e e
    kept c (String.◌∷◌ d t) e = e

trim_left_lem : (s : String) → StartsBlack s → trim_left s ≡ s
unfolding trim_left
trim_left_lem String.[] h = refl
trim_left_lem (String.◌∷◌ c s) h = rw h

-- Trimming again changes nothing.
pub trim_space_idem : (s : String) → trim_space (trim_space s) ≡ trim_space s
unfolding trim_space
trim_space_idem s =
    ap trim_right (trim_left_lem _ (trim_right-StartsBlack (trim_left s) (trim_left-StartsBlack s)))
    ∙ trim_right_idem (trim_left s)
