-- ===== src/Senders/Headers.antt =====
-- internal/infrastructure/notification/smtp.go: the subject line, and the header lines of a mail.
use Prim.Native.Char.{code}
use Prim.Native.String.{◌++◌}
use financial_crime_complian.Common.{
  String, ◌≡◌, ◌≢◌, Bool-cases, eqb, refl, ◌||◌, inl, arith, inr, ◌⊎◌,
}
use financial_crime_complian.Senders.Smtp.{header_value}

-- A text without a carriage return or a line feed.
abbrev pub IsOneLine : String → Type 0
IsOneLine String.[] = Unit
IsOneLine (String.◌∷◌ c s) = (code c ≢ 13) × (code c ≢ 10) × IsOneLine s

-- The second text is the first with a space for each carriage return and each line feed.
abbrev pub IsCleaned : String → String → Type 0
IsCleaned String.[] String.[] = Unit
IsCleaned (String.◌∷◌ c s) (String.◌∷◌ d t) =
    ((((code c ≡ 13) ⊎ (code c ≡ 10)) × (code d ≡ 32)) ⊎ ((code c ≢ 13) × (code c ≢ 10) × (d ≡ c)))
    × IsCleaned s t
IsCleaned _ _ = ⊥

pub header_value-IsCleaned : (s : String) → IsCleaned s (header_value s)
unfolding header_value
header_value-IsCleaned String.[] = tt
header_value-IsCleaned (String.◌∷◌ c s) = elim (Bool-cases (eqb (code c) 13 || eqb (code c) 10)) [
  | inl e ↦ rw e (inl (ground arith, omega arith), header_value-IsCleaned s)
  | inr e ↦ rw e (inr (ground arith, ground arith, refl), header_value-IsCleaned s)
]

pub header_value-IsOneLine : (s : String) → IsOneLine (header_value s)
unfolding header_value
header_value-IsOneLine String.[] = tt
header_value-IsOneLine (String.◌∷◌ c s) = elim (Bool-cases (eqb (code c) 13 || eqb (code c) 10)) [
  | inl e ↦ rw e (omega arith, omega arith, header_value-IsOneLine s)
  | inr e ↦ rw e (ground arith, ground arith, header_value-IsOneLine s)
]

-- A mail with its five header lines, an empty line and its body.
abbrev pub letter : String → String → String → String → String
letter from to subject body =
    "From: " ++ from ++ "\r\nTo: " ++ to ++ "\r\nSubject: " ++ subject
    ++ "\r\nMIME-Version: 1.0\r\nContent-Type: text/plain; charset=UTF-8\r\n\r\n" ++ body ++ "\r\n"
