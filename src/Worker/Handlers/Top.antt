-- ===== src/Worker/Handlers/Top.antt =====
-- The popular set is the top of the tally
-- (apps/worker/src/anime_worker/handlers/housekeeping.py).
use anime_recommendation_eng.Base.{ℕ, ◌≤◌, ◌≡◌, ◌⊎◌, true, List, length, any, All}
use anime_recommendation_eng.Worker.Handlers.{Tally}
use anime_recommendation_eng.Worker.Handlers.Popular.{count, with_id}

abbrev votes : ℕ × ℕ → ℕ
votes e = e.1

-- Where an id stands: in the set; or nowhere in the list; or behind a full set, whose ids all have at
-- least its count.
abbrev pub Standing : ℕ → List ℕ → ℕ → Tally → Type 0
Standing n ids a top =
    (any (with_id a) top ≡ true)
    ⊎ ((count a ids ≡ 0) ⊎ ((length top ≡ n) × All (λ t. count a ids ≤ t.1) top))
