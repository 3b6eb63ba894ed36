-- ===== src/Providers/Similarity.antt =====
-- internal/infrastructure/screening/demo_provider.go: which scores a similarity can have.
use text.Mathlib.TextBridge.{IsPrefix}
use text.Mathlib.Text.{starts_with}
use text.Mathlib.TextEquality.{starts_with_iff}
use text.Mathlib.TextLemmas.{prefix-append, nil-append}
use native.Mathlib.Nat.{div-le_of_le-mul}
use financial_crime_complian.Common.{
  String, ℕ, List, ◌∷◌, [], any, ◌≤◌, ◌==◌, length, ◌+◌, arith, if◌then◌else◌, ◌≡◌, ◌*◌, Bool-cases,
  false, eqb, refl, eq_iff, inl, ◌/◌, suc, subst, inr, zero, All, ◌≢◌, map, ap, true,
}
use financial_crime_complian.Providers.Demo.{
  count_matches, CharTables, similarity, fields, normalize, screen_entries, score_of, word_score,
  contains, Entry, to_candidate,
}

-- The words are different from one another.
abbrev pub AllDistinct : List String → Type 0
AllDistinct [] = Unit
AllDistinct (x ∷ xs) = (any (λ y. x == y) xs ≡ false) × AllDistinct xs

occurrences : String → List String → ℕ
occurrences y [] = 0
occurrences y (x ∷ xs) = (if x == y then 1 else 0) + occurrences y xs

absent : (x : String) (xs : List String) → any (λ y. x == y) xs ≡ false → occurrences x xs ≡ 0
unfolding occurrences
absent x [] h = refl
absent x (z ∷ xs) h = ground (arith, eq_iff x z, eq_iff z x, absent x xs)

occurs_once : (y : String) (xs : List String) → AllDistinct xs → occurrences y xs ≤ 1
unfolding occurrences
occurs_once y [] h = omega arith
occurs_once y (x ∷ xs) h = elim (Bool-cases (x == y)) [
  | inl e ↦
      rw e (omega (arith, subst (λ z. occurrences z xs ≡ 0) ((eq_iff x y).0 e) (absent x xs h.0)))
  | inr e ↦ rw e (omega (arith, occurs_once y xs h.1))
]

count_matches-nil : (aa : List String) → count_matches aa [] ≡ 0
unfolding count_matches
count_matches-nil [] = refl
count_matches-nil (x ∷ aa) = omega (arith, count_matches-nil aa)

count_matches-cons :
    (aa : List String) (y : String) (bb : List String)
    → count_matches aa (y ∷ bb) ≤ occurrences y aa + count_matches aa bb
unfolding count_matches occurrences
count_matches-cons [] y bb = omega arith
count_matches-cons (x ∷ aa) y bb = ground (arith, count_matches-cons aa y bb)

count_matches-le : (aa bb : List String) → count_matches aa bb ≤ length aa
unfolding count_matches
count_matches-le [] bb = omega arith
count_matches-le (x ∷ aa) bb = ground (arith, count_matches-le aa bb)

-- Distinct words cannot match more often than there are words to match.
count_matches-le_right : (aa bb : List String) → AllDistinct aa → count_matches aa bb ≤ length bb
count_matches-le_right aa [] h = omega (arith, count_matches-nil aa)
count_matches-le_right aa (y ∷ bb) h =
    omega (arith, count_matches-cons aa y bb, occurs_once y aa h, count_matches-le_right aa bb h)

-- A quotient by the number of words.
quotient-le : (m n k : ℕ) → m ≤ n * k → (if eqb n 0 then 0 else m / n) ≤ k
quotient-le m zero k h = omega arith
quotient-le m (suc n) k h = ground (arith, div-le_of_le-mul (suc n) h)

word_score-le_distinct : (aa bb : List String) → AllDistinct aa → word_score aa bb ≤ 100
unfolding word_score
word_score-le_distinct aa bb h =
    quotient-le (2 * count_matches aa bb * 100) (length aa + length bb) 100
      (omega (arith, count_matches-le aa bb, count_matches-le_right aa bb h))

score_of-le :
    (a b : String) (k : ℕ) → 100 ≤ k → word_score (fields a) (fields b) ≤ k → score_of a b ≤ k
unfolding score_of
score_of-le a b k h w = ground arith

-- A score is a percentage where no word stands twice in the name that is screened.
pub similarity-le :
    (u : CharTables) (a b : String) → AllDistinct (fields (normalize u a)) → similarity u a b ≤ 100
unfolding similarity
similarity-le u a b h =
    score_of-le (normalize u a) (normalize u b) 100 (omega arith)
      (word_score-le_distinct (fields (normalize u a)) (fields (normalize u b)) h)

starts_with-nil : (s : String) → starts_with s "" ≡ true
starts_with-nil s =
    (starts_with_iff s "").1 (subst (λ t. IsPrefix "" t) (nil-append s) (prefix-append "" s))

contains-nil : (s : String) → contains s "" ≡ true
unfolding contains
contains-nil String.[] = starts_with-nil ""
contains-nil (String.◌∷◌ c s) = rw (starts_with-nil (String.◌∷◌ c s))

blank_score : (b : String) → b ≢ "" → score_of "" b ≡ 90
unfolding score_of
blank_score b n = ground (arith, eq_iff "" b, contains-nil b)

-- A name in which there is no letter and no digit is a part of every name.
pub screen_entries-blank :
    (u : CharTables) (name : String)
    → normalize u name ≡ ""
    → (entries : List Entry) → All (λ e. normalize u e.name ≢ "") entries
    → screen_entries u name entries ≡ map (λ e. to_candidate u e 90) entries
unfolding screen_entries similarity
screen_entries-blank u name h [] n = refl
screen_entries-blank u name h (e ∷ es) n =
    let score : similarity u name e.name ≡ 90 = rw h (blank_score (normalize u e.name) n.0) in
    rw score (ap (λ rest. to_candidate u e 90 ∷ rest) (screen_entries-blank u name h es n.1))
