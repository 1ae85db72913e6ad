-- ===== src/Llm/Venue/Counters.antt =====
-- The health counters of the venue agree with the decisions that are recorded.
use anime_recommendation_eng.Base.{
  ℕ, suc, ◌+◌, ◌≤◌, ◌≡◌, refl, inl, inr, List, [], ◌∷◌, arith, if◌then◌else◌, Bool-cases,
}
use anime_recommendation_eng.Base.Action.{Outcome, ok, raised, cancelled, pure, proceed}
use anime_recommendation_eng.Base.Text.{Text}
use anime_recommendation_eng.Core.Schemas.{Recommendations, is_empty, is_refusal}
use anime_recommendation_eng.Llm.Venue.{
  Routes, Stats, Decision, chose_hosted, venue_served, venue_fallback_error, venue_fallback_empty,
  decide, fall, attempt, update, ask_hosted, after_venue, recommend,
}

unfoldable pub served : List Decision → ℕ
served [] = 0
served (venue_served ∷ l) = suc (served l)
served (_ ∷ l) = served l

unfoldable pub fell : List Decision → ℕ
fell [] = 0
fell (venue_fallback_error ∷ l) = suc (fell l)
fell (venue_fallback_empty ∷ l) = suc (fell l)
fell (_ ∷ l) = fell l

-- Every fallback has its recorded decision, and no more calls ended than were begun: a cancelled
-- attempt has neither been served nor fallen through.
pub record IsBalanced (s : Stats) : Type 0 where
  pub fallbacks : s.venue_fallbacks ≡ fell s.decisions
  pub attempts : served s.decisions + fell s.decisions ≤ s.venue_attempts

-- The same while one attempt is in flight.
record InFlight (s : Stats) : Type 0 where
  fallbacks : s.venue_fallbacks ≡ fell s.decisions
  attempts : served s.decisions + fell s.decisions + 1 ≤ s.venue_attempts

attempt-InFlight : (s : Stats) → IsBalanced s → InFlight (attempt s)
attempt-InFlight s b = ground (arith, b.fallbacks, b.attempts)

InFlight-IsBalanced : (s : Stats) → InFlight s → IsBalanced s
InFlight-IsBalanced s b = ground (arith, b.fallbacks, b.attempts)

decide_hosted-IsBalanced : (s : Stats) → IsBalanced s → IsBalanced (decide chose_hosted s)
unfolding served fell
decide_hosted-IsBalanced s b = ground (arith, b.fallbacks, b.attempts)

decide_served-IsBalanced : (s : Stats) → InFlight s → IsBalanced (decide venue_served s)
unfolding served fell
decide_served-IsBalanced s b = ground (arith, b.fallbacks, b.attempts)

fall_error-IsBalanced : (s : Stats) → InFlight s → IsBalanced (fall venue_fallback_error s)
unfolding served fell
fall_error-IsBalanced s b = ground (arith, b.fallbacks, b.attempts)

fall_empty-IsBalanced : (s : Stats) → InFlight s → IsBalanced (fall venue_fallback_empty s)
unfolding served fell
fall_empty-IsBalanced s b = ground (arith, b.fallbacks, b.attempts)

module _ {W : Type 0} (r : Routes W) (query context : Text) where
  open r use {stats}

  module _ (quiet_venue : (w : W) → stats.read (r.venue.recommend query context w).1 ≡ stats.read w)
      (quiet_hosted : (w : W)
        → stats.read (r.hosted.recommend query context w).1 ≡ stats.read w) where
    read-update : (g : Stats → Stats) (w : W) → stats.read (update r g w) ≡ g (stats.read w)
    read-update g w = stats.read-write (g (stats.read w)) w

    hosted-IsBalanced :
        (g : Stats → Stats) (w : W)
        → IsBalanced (g (stats.read w))
        → IsBalanced (stats.read (ask_hosted r query context (update r g w)).1)
    hosted-IsBalanced g w b = rw (quiet_hosted, read-update) b

    proceed-stats :
        (f : Recommendations → Recommendations) (p : Outcome Recommendations × W)
        → stats.read (proceed (λ a. pure (f a)) p).1 ≡ stats.read p.1
    proceed-stats f (ok a, w) = refl
    proceed-stats f (raised e, w) = refl
    proceed-stats f (cancelled, w) = refl

    served-IsBalanced :
        (w : W)
        → InFlight (stats.read w)
        → IsBalanced (stats.read (update r (decide venue_served) w))
    served-IsBalanced w b = rw read-update (decide_served-IsBalanced _ b)

    after_venue-IsBalanced :
        (p : Outcome Recommendations × W)
        → InFlight (stats.read p.1)
        → IsBalanced (stats.read (after_venue r query context p).1)
    unfolding after_venue
    after_venue-IsBalanced (raised exc, w) b =
        hosted-IsBalanced (fall venue_fallback_error) w (fall_error-IsBalanced _ b)
    after_venue-IsBalanced (cancelled, w) b = InFlight-IsBalanced _ b
    after_venue-IsBalanced (ok result, w) b = elim (Bool-cases (is_refusal result)) [
      | inl refuses ↦ rw refuses (served-IsBalanced w b)
      | inr open_answer ↦ elim (Bool-cases (is_empty result)) [
        | inl empty ↦
            rw (open_answer, empty)
              (rw (proceed-stats (λ second. if is_empty second then result else second) _)
                (hosted-IsBalanced (fall venue_fallback_empty) w (fall_empty-IsBalanced _ b)))
        | inr full ↦ rw (open_answer, full) (served-IsBalanced w b)
      ]
    ]

    -- Where neither client touches the counters of the router, each call keeps them balanced:
    -- `venue_fallbacks` is the number of recorded fallbacks, and never exceeds `venue_attempts`.
    pub recommend-IsBalanced :
        (w : W)
        → IsBalanced (stats.read w)
        → IsBalanced (stats.read (recommend r query context w).1)
    unfolding recommend
    recommend-IsBalanced w b = elim (Bool-cases (r.confident w)) [
      | inl here ↦ rw here (
          after_venue-IsBalanced (r.venue.recommend query context (update r attempt w))
            (rw (quiet_venue, read-update) (attempt-InFlight _ b)))
      | inr away ↦
          rw away (hosted-IsBalanced (decide chose_hosted) w (decide_hosted-IsBalanced _ b))
    ]
