-- ===== src/Llm/Venue.antt =====
-- `should_use_venue` and `VenueRoutedClient` (packages/core/src/anime_core/venue.py).
-- The counters of the object stand in a slot of the world, with the decisions that
-- `record_venue_decision` is called with, the latest first. The confidence is the ContextVar
-- RETRIEVAL_CONFIDENCE of the task, which is read from the world.
pub mod Routing
pub mod Counters
mod Tests
use anime_recommendation_eng.Base.{
  ℕ, ◌+◌, Bool, true, false, Option, none, some, List, [], ◌∷◌, ◌++◌, if◌then◌else◌,
}
use anime_recommendation_eng.Base.Action.{
  Action, Slot, Exc, Outcome, ok, raised, cancelled, pure, ◌>>=◌, ◌>>◌, proceed, modify,
}
use anime_recommendation_eng.Base.Float.{FloatOps}
use anime_recommendation_eng.Base.Text.{Text, codes}
use anime_recommendation_eng.Core.Schemas.{Recommendations, is_empty, is_refusal}
use anime_recommendation_eng.Llm.{LlmClient, Stream}

-- Route to the venue when the confidence is at least the threshold; no signal is no confidence.
unfoldable pub should_use_venue : (f : FloatOps) → f.F → Option f.F → Bool
should_use_venue f threshold none = false
should_use_venue f threshold (some confidence) = f.le threshold confidence

pub data Decision : Type 0 where
  chose_hosted venue_served venue_fallback_error venue_fallback_empty : Decision

pub record Stats : Type 0 where
  pub venue_attempts : ℕ
  pub venue_fallbacks : ℕ
  pub decisions : List Decision

abbrev pub decide : Decision → Stats → Stats
decide d s = record s { decisions = d ∷ s.decisions }

-- `self.venue_fallbacks += 1; record_venue_decision(decision=…)`
abbrev pub fall : Decision → Stats → Stats
fall d s = record s { venue_fallbacks = s.venue_fallbacks + 1; decisions = d ∷ s.decisions }

abbrev pub attempt : Stats → Stats
attempt s = record s { venue_attempts = s.venue_attempts + 1 }

pub record Routes (W : Type 0) : Type 0 where
  pub venue : LlmClient W
  pub hosted : LlmClient W
  pub stats : Slot W Stats
  -- `should_use_venue(RETRIEVAL_CONFIDENCE.get())`
  pub confident : W → Bool

module _ {W : Type 0} (r : Routes W) where
  abbrev pub update : (Stats → Stats) → W → W
  update g w = r.stats.write (g (r.stats.read w)) w

  module _ (query context : Text) where
    abbrev pub ask_hosted : Action W Recommendations
    ask_hosted = r.hosted.recommend query context

    -- What `recommend` does with the end of the venue's call.
    unfoldable pub after_venue : Outcome Recommendations × W → Outcome Recommendations × W
    after_venue (raised exc, w) = ask_hosted (update (fall venue_fallback_error) w)
    after_venue (cancelled, w) = (cancelled, w)
    after_venue (ok result, w) =
        if is_refusal result
        then (ok result, update (decide venue_served) w)
        else (if is_empty result
            then proceed (λ second. pure (if is_empty second then result else second))
                (ask_hosted (update (fall venue_fallback_empty) w))
            else (ok result, update (decide venue_served) w))

    -- `VenueRoutedClient.recommend`
    unfoldable pub recommend : Action W Recommendations
    unfolding after_venue
    recommend w =
        if r.confident w
        then after_venue (r.venue.recommend query context (update attempt w))
        else ask_hosted (update (decide chose_hosted) w)

    -- The decision is recorded at the first token, before the rest of the stream is read; here it
    -- stands behind the whole of the venue's stream.
    unfoldable pub after_stream :
        List Text × Outcome (Unit {0}) × W → List Text × Outcome (Unit {0}) × W
    after_stream ([], raised exc, w) =
        r.hosted.astream query context (update (fall venue_fallback_error) w)
    after_stream ([], ok done, w) = ([], ok done, update (decide venue_served) w)
    after_stream ([], cancelled, w) = ([], cancelled, w)
    after_stream (first ∷ rest, end, w) = (first ∷ rest, end, update (decide venue_served) w)

    -- `VenueRoutedClient.astream`
    unfoldable pub astream : Stream W
    unfolding after_stream
    astream w =
        if r.confident w
        then after_stream (r.venue.astream query context (update attempt w))
        else r.hosted.astream query context (update (decide chose_hosted) w)

-- The object: `model` names both legs.
unfoldable pub venue_routed : {W : Type 0} → ℕ → Routes W → LlmClient W
unfolding recommend astream
venue_routed object_id r = record {
  object_id = object_id;
  model =
      codes "venue-routed(venue="
      ++ (r.venue.model ++ (codes ", hosted=" ++ (r.hosted.model ++ codes ")")));
  recommend = recommend r;
  astream = astream r;
}
