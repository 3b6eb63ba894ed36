-- ===== src/Tests/Similarity.antt =====
-- The demo provider, on concrete names.
use mathlib.Core.Bool.{true≢false}
use financial_crime_complian.Providers.Similarity.{AllDistinct, similarity-le, screen_entries-blank}
use financial_crime_complian.Providers.Demo.{
  similarity, normalize, screen_entries, Entry, CharTables, join, score_of, fields, word_score,
  count_matches, read_words, map_name, contains, to_candidate, is_word, lower,
}
use financial_crime_complian.Common.{◌≤◌, ◌∷◌, ◌≢◌, false, [], ◌≡◌, refl, ap, sym, ◌∙◌}
use financial_crime_complian.Domain.Screening.{ScreeningListType}
use financial_crime_complian.Common.Text.{rune, space, is_empty}

abbrev tables : CharTables
tables = record { is_letter = λ c. false; is_digit = λ c. false; to_lower = λ c. c }

repeated_words_exceed : similarity tables "Viktor Viktor Viktor" "Viktor Petrov" ≡ 120
unfolding similarity normalize score_of word_score count_matches contains join fields read_words
    map_name is_word lower rune space
repeated_words_exceed = refl

distinct_words : AllDistinct (fields (normalize tables "Petrov Viktor"))
unfolding normalize join fields read_words map_name is_word lower rune space
distinct_words = (refl, (refl, tt))

similarity-le_example : similarity tables "Petrov Viktor" "Viktor Petrov" ≤ 100
similarity-le_example = similarity-le tables "Petrov Viktor" "Viktor Petrov" distinct_words

is_blank : normalize tables "- !" ≡ ""
unfolding normalize join fields read_words map_name is_word lower rune space
is_blank = refl

named : normalize tables "Viktor Petrov" ≡ "viktor petrov"
unfolding normalize join fields read_words map_name is_word lower rune space
named = refl

abbrev entry : Entry
entry = record { name = "Viktor Petrov"; kind = ScreeningListType.sanctions }

named_entry : normalize tables "Viktor Petrov" ≢ ""
named_entry e = absurd (true≢false (ap is_empty (sym e ∙ named)))

blank_name_matches_entry :
    screen_entries tables "- !" (entry ∷ []) ≡ to_candidate tables entry 90 ∷ []
blank_name_matches_entry = screen_entries-blank tables "- !" is_blank (entry ∷ []) (named_entry, tt)
