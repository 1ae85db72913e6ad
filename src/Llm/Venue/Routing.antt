-- ===== src/Llm/Venue/Routing.antt =====
-- The venue is additive, never load-bearing.
use anime_recommendation_eng.Base.{◌≡◌, ◌≢◌, refl, inl, inr, true, false, Option, none, Bool-cases}
use anime_recommendation_eng.Base.Action.{Outcome, ok, raised, cancelled, pure, proceed}
use anime_recommendation_eng.Base.Float.{FloatOps}
use anime_recommendation_eng.Base.Text.{Text}
use anime_recommendation_eng.Core.Schemas.{Recommendations, is_empty, is_refusal}
use anime_recommendation_eng.Llm.Venue.{
  Routes, chose_hosted, venue_served, decide, attempt, update, should_use_venue, ask_hosted,
  after_venue, recommend, astream,
}

module _ {W : Type 0} (r : Routes W) (query context : Text) where
  abbrev pub Answers : Outcome Recommendations × W → Type 0
  Answers (ok result, w) = Unit
  Answers (raised _, w) = ⊥
  Answers (cancelled, w) = ⊥

  -- Without a confidence score (nothing was retrieved, or the reranker did not run) both calls are
  -- the hosted client's, after one recorded decision: the venue is not asked.
  pub recommend-no_signal :
      (f : FloatOps) (threshold : f.F) (confidence : W → Option f.F)
      → r.confident ≡ (λ w. should_use_venue f threshold (confidence w))
      → (w : W) → confidence w ≡ none
      → (recommend r query context w
          ≡ r.hosted.recommend query context (update r (decide chose_hosted) w))
        × (astream r query context w
            ≡ r.hosted.astream query context (update r (decide chose_hosted) w))
  unfolding recommend astream should_use_venue
  recommend-no_signal f threshold confidence routed w silent =
      let away : r.confident w ≡ false = rw (routed, silent) refl in (rw away refl, rw away refl)

  module _ (back : (w : W) → Answers (ask_hosted r query context w)) where
    proceed-Answers :
        (f : Recommendations → Recommendations) (p : Outcome Recommendations × W)
        → Answers p
        → Answers (proceed (λ a. pure (f a)) p)
    proceed-Answers f (ok result, w) h = tt
    proceed-Answers f (raised e, w) h = h
    proceed-Answers f (cancelled, w) h = h

    after_venue-Answers :
        (p : Outcome Recommendations × W)
        → p.0 ≢ cancelled
        → Answers (after_venue r query context p)
    unfolding after_venue
    after_venue-Answers (raised exc, w) h = back _
    after_venue-Answers (cancelled, w) h = h refl
    after_venue-Answers (ok result, w) h = elim (Bool-cases (is_refusal result)) [
      | inl refuses ↦ rw refuses tt
      | inr open_answer ↦ elim (Bool-cases (is_empty result)) [
        | inl empty ↦ rw (open_answer, empty) (proceed-Answers _ _ (back _))
        | inr full ↦ rw (open_answer, full) tt
      ]
    ]

    -- While the hosted client answers in every state of the world, so does the routed one, whatever
    -- the venue raises or returns. Only a cancellation of the task is passed on, and is excluded.
    pub routed-Answers :
        ((w : W) → (r.venue.recommend query context w).0 ≢ cancelled)
        → (w : W) → Answers (recommend r query context w)
    unfolding recommend
    routed-Answers stays w = elim (Bool-cases (r.confident w)) [
      | inl here ↦
          rw here
            (after_venue-Answers (r.venue.recommend query context (update r attempt w)) (stays _))
      | inr away ↦ rw away (back _)
    ]

  -- A refusal of the venue is returned as it is, and the hosted client is not asked.
  pub recommend-refused :
      (w w' : W) (result : Recommendations)
      → r.confident w ≡ true
      → r.venue.recommend query context (update r attempt w) ≡ (ok result, w')
      → is_refusal result ≡ true
      → recommend r query context w ≡ (ok result, update r (decide venue_served) w')
  unfolding recommend after_venue
  recommend-refused w w' result here e refuses = rw (here, e) (rw refuses)
