-- ===== src/Retrieval/Catalog/Tests.antt =====
-- Tests of the catalogue, with scores in millionths.
use anime_recommendation_eng.Base.{
  ℕ, ◌*◌, ◌/◌, ◌≡◌, refl, false, none, some, List, [], ◌∷◌, any, keep, is_empty, drop, length,
  if◌then◌else◌,
}
use anime_recommendation_eng.Base.Action.{ok, raised, runtime_error}
use anime_recommendation_eng.Base.Float.{millionths, millionths-IsOrdered}
use anime_recommendation_eng.Base.Text.{Text, codes, latin, ascii_lower, text_eq, starts_with}
use anime_recommendation_eng.Retrieval.Catalog.{
  Matcher, normalise, sub_runs, content_tokens, words_of, set_of, extract_named_titles, containment,
  similarity, best_match, missing_titles, load_catalog,
}
use anime_recommendation_eng.Retrieval.Catalog.Missing.{
  is_unlike, missing_titles-is_unlike, missing_titles-contained,
}

abbrev about : Text
about = codes "tell me about "

-- One pattern, one title for each name, and a ratio that tells only equal texts.
abbrev matcher : Matcher ℕ
matcher = record {
  fold = ascii_lower;
  named_part = λ q. if starts_with about q then some (drop 14 q) else none;
  split_names = λ part. part ∷ [];
  ratio = λ a b. if text_eq a b then 1_000_000 else 500_000;
  quotient = λ a b. a * 1_000_000 / b;
  cutoff = 780_000;
}

abbrev titles : List Text
titles = codes "Kenpuu Denki Berserk" ∷ codes "Monster" ∷ []

normalises : normalise latin millionths matcher (codes "Re:Zero -- (TV)!") ≡ codes "re zero tv"
unfolding normalise sub_runs
normalises = refl

misses_absent :
    missing_titles latin millionths matcher titles (codes "tell me about Demon Slayer?")
    ≡ codes "Demon Slayer" ∷ []
unfolding missing_titles best_match extract_named_titles containment similarity content_tokens
    normalise words_of set_of sub_runs
misses_absent = refl

fails_open :
    load_catalog (λ (w : ℕ). (raised (record { kind = runtime_error; message = [] }), w)) 7
    ≡ (ok [], 7)
unfolding load_catalog
fails_open = refl

missing_titles-is_unlike_example :
    missing_titles latin millionths matcher titles (codes "tell me about Demon Slayer?")
    ≡ keep
        (is_unlike latin millionths matcher titles)
        (extract_named_titles latin millionths matcher (codes "tell me about Demon Slayer?"))
missing_titles-is_unlike_example =
    missing_titles-is_unlike latin millionths matcher millionths-IsOrdered refl titles
      (codes "tell me about Demon Slayer?")

some_text : is_empty (normalise latin millionths matcher (codes "berserk")) ≡ false
unfolding normalise sub_runs
some_text = refl

some_word : is_empty (content_tokens latin millionths matcher (codes "berserk")) ≡ false
unfolding content_tokens normalise words_of set_of sub_runs
some_word = refl

within :
    keep
      (λ w.
        any (text_eq w) (content_tokens latin millionths matcher (codes "Kenpuu Denki Berserk")))
      (content_tokens latin millionths matcher (codes "berserk"))
    ≡ content_tokens latin millionths matcher (codes "berserk")
unfolding content_tokens normalise words_of set_of sub_runs
within = refl

whole :
    millionths.lt
      (matcher.quotient
        (length (content_tokens latin millionths matcher (codes "berserk")))
        (length (content_tokens latin millionths matcher (codes "berserk"))))
      matcher.cutoff
    ≡ false
unfolding content_tokens normalise words_of set_of sub_runs
whole = refl

missing_titles-contained_test :
    any
      (text_eq (codes "berserk"))
      (missing_titles latin millionths matcher titles (codes "tell me about berserk"))
    ≡ false
missing_titles-contained_test =
    missing_titles-contained latin millionths matcher millionths-IsOrdered refl titles
      (codes "tell me about berserk") (codes "berserk") (codes "Kenpuu Denki Berserk") refl
      some_text some_word within whole
