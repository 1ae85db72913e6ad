-- ===== src/Llm/Venue/Tests.antt =====
-- Tests of the routing between the venue and the hosted chain: the world is a confidence, the
-- counters, and a count of calls.
use anime_recommendation_eng.Base.{ℕ, ◌+◌, ◌≡◌, refl, arith, Option, none, some, [], ◌∷◌}
use anime_recommendation_eng.Base.Action.{Slot, Outcome, ok, raised}
use anime_recommendation_eng.Base.Float.{millionths}
use anime_recommendation_eng.Base.Text.{codes}
use anime_recommendation_eng.Core.Schemas.{Recommendations}
use anime_recommendation_eng.Llm.{LlmClient}
use anime_recommendation_eng.Llm.Samples.{filled, nothing, declined, late}
use anime_recommendation_eng.Llm.Venue.{
  Stats, Routes, chose_hosted, venue_served, should_use_venue, recommend, astream, attempt, decide,
}
use anime_recommendation_eng.Llm.Venue.Routing.{
  Answers, recommend-no_signal, routed-Answers, recommend-refused,
}
use anime_recommendation_eng.Llm.Venue.Counters.{IsBalanced, served, fell, recommend-IsBalanced}

abbrev World : Type 0
World = Option ℕ × (Stats × ℕ)

abbrev counters : Slot World Stats
counters = record {
  read = λ w. w.1.0;
  write = λ s w. (w.0, (s, w.1.1));
  read-write = λ s w. refl;
  write-read = λ w. refl;
  write-write = λ s t w. refl;
}

abbrev answering : ℕ → Outcome Recommendations → LlmClient World
answering object_id answer = record {
  object_id = object_id;
  model = codes "m";
  recommend = λ query context w. (answer, (w.0, (w.1.0, w.1.1 + 1)));
  astream = λ query context w. (codes "t" ∷ [], ok tt, (w.0, (w.1.0, w.1.1 + 1)));
}

abbrev routes : Outcome Recommendations → Routes World
routes answer = record {
  venue = answering 0 answer;
  hosted = answering 1 (ok filled);
  stats = counters;
  confident = λ w. should_use_venue millionths 1_000_000 w.0;
}

abbrev no_stats : Stats
no_stats = record { venue_attempts = 0; venue_fallbacks = 0; decisions = [] }

no_stats-IsBalanced : IsBalanced no_stats
unfolding served fell
no_stats-IsBalanced = record { fallbacks = refl; attempts = omega arith }

recommend-no_signal_test :
    (recommend (routes (ok filled)) [] [] (none, (no_stats, 0))
      ≡ (ok filled, (none, (decide chose_hosted no_stats, 1))))
    × (astream (routes (ok filled)) [] [] (none, (no_stats, 0))
        ≡ (codes "t" ∷ [], ok tt, (none, (decide chose_hosted no_stats, 1))))
recommend-no_signal_test =
    recommend-no_signal (routes (ok filled)) [] [] millionths 1_000_000 (λ w. w.0) refl
      (none, (no_stats, 0)) refl

routed-Answers_test :
    Answers
      (routes (raised late))
      []
      []
      (recommend (routes (raised late)) [] [] (some 2_000_000, (no_stats, 0)))
routed-Answers_test =
    routed-Answers (routes (raised late)) [] [] (λ w. tt) (λ w e. cc)
      (some 2_000_000, (no_stats, 0))

recommend-refused_test :
    recommend (routes (ok declined)) [] [] (some 2_000_000, (no_stats, 0))
    ≡ (ok declined, (some 2_000_000, (decide venue_served (attempt no_stats), 1)))
unfolding should_use_venue
recommend-refused_test =
    recommend-refused (routes (ok declined)) [] [] (some 2_000_000, (no_stats, 0))
      (some 2_000_000, (attempt no_stats, 1)) declined refl refl refl

recommend-IsBalanced_example :
    IsBalanced
      (counters.read (recommend (routes (ok nothing)) [] [] (some 2_000_000, (no_stats, 0))).1)
recommend-IsBalanced_example =
    recommend-IsBalanced (routes (ok nothing)) [] [] (λ w. refl) (λ w. refl)
      (some 2_000_000, (no_stats, 0)) no_stats-IsBalanced
