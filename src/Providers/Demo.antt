-- ===== src/Providers/Demo.antt =====
-- internal/infrastructure/screening/demo_provider.go: a fixed list, and a similarity of names.
use Prim.Native.Char.{Char, code}
use Prim.Native.String.{◌++◌}
use text.Mathlib.Text.{starts_with}
use financial_crime_complian.Common.{
  [], ◌∷◌, String, List, Bool, ℕ, ◌||◌, leb, if◌then◌else◌, any, ◌&&◌, ◌==◌, eqb, ltb, ◌+◌, length,
  ◌*◌, ◌/◌,
}
use financial_crime_complian.Common.Text.{rune, space, is_empty}
use financial_crime_complian.Application.Screening.Gather.{Provider, ScreeningCandidate}
use financial_crime_complian.Effects.{ok}
use financial_crime_complian.Domain.Screening.{ScreeningListType}
use financial_crime_complian.Common.Int.{pos}

-- The tables of unicode past ASCII.
pub record CharTables : Type 0 where
  pub is_letter : Char → Bool
  pub is_digit : Char → Bool
  pub to_lower : Char → Char

pub record Entry : Type 0 where
  pub name : String
  pub kind : ScreeningListType

abbrev pub demo_entries : List Entry
demo_entries =
    record { name = "Viktor Petrov"; kind = ScreeningListType.sanctions }
    ∷ record { name = "Nadia Karim"; kind = ScreeningListType.pep }
    ∷ record { name = "Orion Trading Company"; kind = ScreeningListType.sanctions }
    ∷ record { name = "Marcus Vale"; kind = ScreeningListType.adverse_media }
    ∷ []

-- 'a' to 'z', and 'A' to 'Z'
abbrev pub is_small : ℕ → Bool
is_small c = leb b'a' c && leb c b'z'

abbrev pub is_capital : ℕ → Bool
is_capital c = leb b'A' c && leb c b'Z'

module _ (u : CharTables) where
  -- unicode.IsLetter(r) || unicode.IsDigit(r)
  unfoldable pub is_word : Char → Bool
  is_word c =
      if ltb (code c) 0x80
      then is_small (code c) || is_capital (code c) || (leb b'0' (code c) && leb (code c) b'9')
      else u.is_letter c || u.is_digit c

  -- unicode.ToLower
  unfoldable pub lower : Char → Char
  unfolding rune
  lower c =
      if ltb (code c) 0x80
      then (if is_capital (code c) then rune (code c + 32) else c)
      else u.to_lower c

  -- The function that strings.Map is given; what is no letter, digit or space becomes a space.
  unfoldable pub map_name : String → String
  unfolding is_word lower space rune
  map_name String.[] = String.[]
  map_name (String.◌∷◌ c s) =
      String.◌∷◌ (if is_word c || space c then lower c else rune 32) (map_name s)

-- The word that is being read is put in front of those behind it, if there is one.
abbrev pub end_word : String → List String → List String
end_word word words = if is_empty word then words else word ∷ words

-- strings.Fields: the word in progress, and the words behind it.
unfoldable pub read_words : String → String × List String
unfolding space
read_words String.[] = (String.[], [])
read_words (String.◌∷◌ c s) =
    let (word, words) = read_words s in
    if space c then (String.[], end_word word words) else (String.◌∷◌ c word, words)

unfoldable pub fields : String → List String
unfolding read_words
fields s = let (word, words) = read_words s in end_word word words

-- strings.Join(words, " ")
unfoldable pub join : List String → String
join [] = ""
join (w ∷ []) = w
join (w ∷ v ∷ ws) = w ++ " " ++ join (v ∷ ws)

-- strings.Contains
unfoldable pub contains : String → String → Bool
contains String.[] t = starts_with String.[] t
contains (String.◌∷◌ c s) t = starts_with (String.◌∷◌ c s) t || contains s t

-- The two loops over the words, with the break of the inner one.
unfoldable pub count_matches : List String → List String → ℕ
count_matches [] bb = 0
count_matches (x ∷ aa) bb = (if any (λ y. x == y) bb then 1 else 0) + count_matches aa bb

-- 2 * matches * 100 / denominator, of the words of the two names
unfoldable pub word_score : List String → List String → ℕ
unfolding count_matches
word_score aa bb =
    if eqb (length aa + length bb) 0
    then 0
    else 2 * count_matches aa bb * 100 / (length aa + length bb)

unfoldable pub score_of : String → String → ℕ
unfolding contains fields word_score
score_of a b =
    if a == b
    then 100
    else if contains a b || contains b a
    then 90
    else word_score (fields a) (fields b)

module _ (u : CharTables) where
  unfoldable pub normalize : String → String
  unfolding map_name fields join
  normalize value = join (fields (map_name u value))

  unfoldable pub similarity : String → String → ℕ
  unfolding normalize score_of
  similarity a b = score_of (normalize a) (normalize b)

  abbrev pub to_candidate : Entry → ℕ → ScreeningCandidate
  to_candidate item score = record {
    list_type = item.kind;
    name = item.name;
    score = pos score;
    reason = "Normalized name similarity meets the 70% review threshold";
  }

  unfoldable pub screen_entries : String → List Entry → List ScreeningCandidate
  unfolding similarity
  screen_entries name [] = []
  screen_entries name (item ∷ rest) =
      let others = screen_entries name rest in
      let score = similarity name item.name in
      if leb 70 score then to_candidate item score ∷ others else others

  -- DemoProvider, which fails on no request.
  unfoldable pub demo_provider : Provider
  unfolding screen_entries
  demo_provider = record {
    name = "fccp-demo-screening-v1";
    screen = λ n name. ok (screen_entries name demo_entries);
  }
