-- ===== src/Llm/Tiered/Tests.antt =====
-- Tests of the tiered client.
use anime_recommendation_eng.Base.{ℕ, ◌+◌, ◌≤◌, ◌≡◌, refl, true, false, [], ◌∷◌}
use anime_recommendation_eng.Base.Action.{ok, raised}
use anime_recommendation_eng.Base.Text.{Text, codes, latin}
use anime_recommendation_eng.Llm.{LlmClient}
use anime_recommendation_eng.Llm.Samples.{filled, nothing, declined, malformed, late, client}
use anime_recommendation_eng.Llm.Tiered.{
  Tiers, default_should_escalate, is_parse_error, recommend, astream, after_attempt, after_error,
}
use anime_recommendation_eng.Llm.Tiered.Answers.{
  recommend-final, recommend-empty, recommend-unavailable, recommend-Answers, Answers,
}
use anime_recommendation_eng.Llm.Tiered.Cost.{recommend-calls}
use anime_recommendation_eng.Llm.Tiered.Streams.{Unspliced, astream-Unspliced}

abbrev with_primary : LlmClient ℕ → Tiers ℕ
with_primary c = record {
  default = c;
  escalation = client 1 (ok filled) [] (ok tt);
  fallback = client 2 (ok filled) (codes "b" ∷ []) (ok tt);
  should_escalate = λ q. false;
}

abbrev q : Text
q = codes "sports"

abbrev refuses : Tiers ℕ
refuses = with_primary (client 0 (ok declined) [] (ok tt))

abbrev blank : Tiers ℕ
blank = with_primary (client 0 (ok nothing) [] (ok tt))

abbrev slow : Tiers ℕ
slow = with_primary (client 0 (raised late) [] (raised late))

abbrev garbled : Tiers ℕ
garbled = with_primary (client 0 (raised malformed) (codes "a" ∷ []) (raised malformed))

escalates : default_should_escalate latin 2 (codes "a show like this") ≡ true
unfolding default_should_escalate
escalates = refl

falls_back_twice : recommend garbled q [] latin 0 ≡ (ok filled, 3)
unfolding recommend after_attempt after_error is_parse_error
falls_back_twice = refl

recommend-final_test : recommend refuses q [] latin 0 ≡ (ok declined, 1)
recommend-final_test = recommend-final latin refuses q [] 0 1 declined refl refl

recommend-empty_test : recommend blank q [] latin 0 ≡ (ok filled, 2)
recommend-empty_test =
    recommend-empty latin blank q [] 0 1 2 nothing filled refl refl refl refl refl

recommend-unavailable_test : recommend slow q [] latin 0 ≡ (ok filled, 2)
unfolding is_parse_error
recommend-unavailable_test = recommend-unavailable latin slow q [] 0 1 late refl refl

recommend-Answers_example : Answers latin garbled q [] (recommend garbled q [] latin 0)
recommend-Answers_example = recommend-Answers latin garbled q [] (λ w. tt) (λ w e. cc) 0

recommend-calls_test : (recommend garbled q [] latin 0).1 ≤ 0 + 3
recommend-calls_test = recommend-calls latin garbled q [] (λ w. w) (λ w. refl) (λ w. refl) 0

astream-Unspliced_test :
    Unspliced garbled q [] (codes "a" ∷ [], raised malformed, 1) (astream garbled q [] 0)
astream-Unspliced_test = astream-Unspliced garbled q [] 0
