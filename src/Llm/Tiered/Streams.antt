-- ===== src/Llm/Tiered/Streams.antt =====
-- Falling through on the streaming path.
use anime_recommendation_eng.Base.{◌≡◌, refl, List, [], ◌∷◌}
use anime_recommendation_eng.Base.Action.{Outcome, ok, raised, cancelled}
use anime_recommendation_eng.Base.Text.{Text}
use anime_recommendation_eng.Llm.Tiered.{Tiers, primary, after_stream, astream}

module _ {W : Type 0} (t : Tiers W) (query context : Text) where
  -- What the client of the stream gets, given the primary's stream: the fallback's stream if the
  -- primary raised before its first token, and the primary's, to its very end, in all other cases.
  abbrev pub Unspliced :
      List Text × Outcome (Unit {0}) × W → List Text × Outcome (Unit {0}) × W → Type 0
  Unspliced ([], raised exc, w) got = got ≡ t.fallback.astream query context w
  Unspliced ([], ok done, w) got = got ≡ ([], ok done, w)
  Unspliced ([], cancelled, w) got = got ≡ ([], cancelled, w)
  Unspliced (first ∷ rest, end, w) got = got ≡ (first ∷ rest, end, w)

  after_stream-Unspliced :
      (p : List Text × Outcome (Unit {0}) × W) → Unspliced p (after_stream t query context p)
  unfolding after_stream
  after_stream-Unspliced ([], raised exc, w) = refl
  after_stream-Unspliced ([], ok done, w) = refl
  after_stream-Unspliced ([], cancelled, w) = refl
  after_stream-Unspliced (first ∷ rest, end, w) = refl

  -- No stream splices two models' prose.
  pub astream-Unspliced :
      (w : W) → Unspliced ((primary t query).astream query context w) (astream t query context w)
  unfolding astream
  astream-Unspliced w = after_stream-Unspliced ((primary t query).astream query context w)
