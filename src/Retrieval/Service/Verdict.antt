-- ===== src/Retrieval/Service/Verdict.antt =====
-- What `RecommendationService.recommend` can answer (packages/retrieval/src/anime_retrieval/service.py).
use anime_recommendation_eng.Base.{
  ℕ, ◌≤◌, ◌≡◌, refl, inl, inr, Bool, true, false, Option, none, some, List, [], ◌∷◌, ◌==◌, arith,
  map, elem, length, All, is_empty as is_nil, if◌then◌else◌, Bool-cases,
}
use anime_recommendation_eng.Base.Action.{Outcome, ok, raised, cancelled, pure, proceed}
use anime_recommendation_eng.Base.Float.{FloatOps}
use anime_recommendation_eng.Base.Raises.{Raises, Never}
use anime_recommendation_eng.Base.Text.{Text, Unicode}
use anime_recommendation_eng.Core.Schemas.{
  Recommendation, Recommendations, RecommendationResult, is_empty, is_refusal, is_stated,
  refusal_result, popular_fallback, degraded_notice, no_match_notice, max_recommendations,
}
use anime_recommendation_eng.Retrieval.{Candidate}
use anime_recommendation_eng.Retrieval.Grounding.{ground_recommendations}
use anime_recommendation_eng.Retrieval.Grounding.Valid.{ground_recommendations-In}
use anime_recommendation_eng.Retrieval.Service.{
  Service, top_rerank_confidence, out_of_scope_refusal, refusal_for, is_unavailable, below_floor,
  after_retriever, find, answer, after_model, generate, from_candidates, unless_named, recommend,
}

-- The answers there are: the popular titles marked as degraded, with either notice; a refusal with
-- no items and a text, which is not degraded; at least one and at most five titles, all of the
-- catalogue.
pub data Verdict (catalogue : List ℕ) : RecommendationResult → Type 0 where
  degrades : Verdict catalogue (popular_fallback degraded_notice)
  matches_nothing : Verdict catalogue (popular_fallback no_match_notice)
  refuses :
      (refusal : Option Text)
      → is_stated refusal ≡ true
      → Verdict catalogue (refusal_result refusal)
  serves :
      (items : List Recommendation)
      → is_nil items ≡ false
      → length items ≤ max_recommendations
      → All (λ r. elem r.mal_id catalogue ≡ true) items
      → Verdict catalogue
          (record { items = items; refusal = none; degraded = false; notice = none })

-- A call that gave a verdict, or whose task was cancelled.
abbrev pub Gives : {W : Type 0} → List ℕ → Outcome RecommendationResult × W → Type 0
Gives catalogue (ok r, w) = Verdict catalogue r
Gives catalogue (raised e, w) = ⊥
Gives catalogue (cancelled, w) = Unit

-- A retriever's call: titles of the catalogue, or the exception that it is unavailable.
abbrev pub Finds : {W F : Type 0} → List ℕ → Outcome (List (Candidate F)) × W → Type 0
Finds catalogue (ok cs, w) = All (λ c. elem c.mal_id catalogue ≡ true) cs
Finds catalogue (raised e, w) = is_unavailable e ≡ true
Finds catalogue (cancelled, w) = Unit

abbrev Known : {F : Type 0} → List ℕ → Option (List (Candidate F)) → Type 0
Known catalogue none = Unit
Known catalogue (some cs) = All (λ c. elem c.mal_id catalogue ≡ true) cs

elem-of_candidates :
    {F : Type 0} (catalogue : List ℕ) (i : ℕ) (cs : List (Candidate F))
    → All (λ c. elem c.mal_id catalogue ≡ true) cs
    → elem i (map (λ c. c.mal_id) cs) ≡ true
    → elem i catalogue ≡ true
elem-of_candidates catalogue i [] h e = cc
elem-of_candidates catalogue i (c ∷ cs) h e = elim (Bool-cases (i == c.mal_id)) [
  | inl here ↦ let same : i ≡ c.mal_id = ground (arith, here) in rw same h.0
  | inr later ↦ elem-of_candidates catalogue i cs h.1 (rw later at e)
]

All-of_candidates :
    {F : Type 0} (catalogue : List ℕ) (cs : List (Candidate F)) (items : List Recommendation)
    → All (λ c. elem c.mal_id catalogue ≡ true) cs
    → All (λ r. elem r.mal_id (map (λ c. c.mal_id) cs) ≡ true) items
    → All (λ r. elem r.mal_id catalogue ≡ true) items
All-of_candidates catalogue cs [] h k = tt
All-of_candidates catalogue cs (r ∷ rs) h k =
    (elem-of_candidates catalogue r.mal_id cs h k.0, All-of_candidates catalogue cs rs h k.1)

stated-of_refusal :
    (recs : Recommendations) → is_refusal recs ≡ true → is_stated recs.refusal ≡ true
stated-of_refusal recs h = ground (arith, h)

refusal_for-IsStated : (ts : List Text) → is_stated (some (refusal_for ts)) ≡ true
unfolding refusal_for
refusal_for-IsStated ts = refl

module _ {W : Type 0} (u : Unicode) (f : FloatOps) (s : Service W f) (catalogue : List ℕ) where
  open f use {F}

  answer-Verdict :
      (cs : List (Candidate F)) (recs : Recommendations)
      → All (λ c. elem c.mal_id catalogue ≡ true) cs
      → Verdict catalogue (answer u f s cs recs)
  unfolding answer
  answer-Verdict cs recs h = elim (Bool-cases (is_refusal recs)) [
    | inl declined ↦ rw declined (refuses recs.refusal (stated-of_refusal recs declined))
    | inr open_answer ↦ elim (Bool-cases (is_empty (ground_recommendations u recs cs))) [
      | inl nothing ↦ rw (open_answer, nothing) matches_nothing
      | inr full ↦
          let (known, few) = ground_recommendations-In u recs cs in
          rw (open_answer, full)
            (serves (ground_recommendations u recs cs).items full few
              (All-of_candidates catalogue cs (ground_recommendations u recs cs).items h known))
    ]
  ]

  after_model-Gives :
      (cs : List (Candidate F)) (p : Outcome Recommendations × W)
      → All (λ c. elem c.mal_id catalogue ≡ true) cs
      → Gives catalogue (after_model u f s cs p)
  unfolding after_model
  after_model-Gives cs (ok recs, w) h = answer-Verdict cs recs h
  after_model-Gives cs (raised e, w) h = degrades
  after_model-Gives cs (cancelled, w) h = tt

  from_candidates-Gives :
      (query : Text) (found : Option (List (Candidate F))) (w : W)
      → Known catalogue found
      → Gives catalogue (from_candidates u f s query found w)
  unfolding from_candidates generate
  from_candidates-Gives query none w h = degrades
  from_candidates-Gives query (some []) w h = matches_nothing
  from_candidates-Gives query (some (c ∷ cs)) w h =
      elim (Bool-cases (below_floor u f s (top_rerank_confidence (c ∷ cs)))) [
        | inl low ↦ rw low (refuses (some out_of_scope_refusal) refl)
        | inr fair ↦ rw fair (after_model-Gives (c ∷ cs) _ h)
      ]

  find-Gives :
      (query : Text) (p : Outcome (List (Candidate F)) × W)
      → Finds catalogue p
      → Gives catalogue (proceed (from_candidates u f s query) (after_retriever u f s p))
  unfolding after_retriever
  find-Gives query (ok cs, w) h = from_candidates-Gives query (some cs) w h
  find-Gives query (raised e, w) h = rw h (from_candidates-Gives query none w tt)
  find-Gives query (cancelled, w) h = tt

  unless_named-Gives :
      (query : Text) (missing : List Text) (w : W)
      → ((w : W) → Finds catalogue (s.retriever query w))
      → Gives catalogue (unless_named u f s query missing w)
  unfolding unless_named find
  unless_named-Gives query [] w h = find-Gives query (s.retriever query w) (h w)
  unless_named-Gives query (t ∷ ts) w h =
      refuses (some (refusal_for (t ∷ ts))) (refusal_for-IsStated (t ∷ ts))

  enabled-Gives :
      (query : Text) (p : Outcome Bool × W)
      → Raises Never p
      → ((w : W) → Finds catalogue (s.retriever query w))
      → Gives catalogue (
          proceed
            (λ enabled.
              if enabled
              then unless_named u f s query (s.named_but_absent query)
              else pure (popular_fallback degraded_notice))
            p)
  enabled-Gives query (ok true, w) k h = unless_named-Gives query (s.named_but_absent query) w h
  enabled-Gives query (ok false, w) k h = degrades
  enabled-Gives query (raised e, w) k h = k
  enabled-Gives query (cancelled, w) k h = tt

  -- Where the check of the kill switch never raises, and the retriever gives titles of the catalogue
  -- or raises that it is unavailable, `recommend` raises nothing, whatever the model does. It gives
  -- the popular titles as degraded, a refusal with a text, or one to five titles of the catalogue.
  pub recommend-Gives :
      (query : Text) (w : W)
      → ((w : W) → Raises Never (s.generation_enabled w))
      → ((w : W) → Finds catalogue (s.retriever query w))
      → Gives catalogue (recommend u f s query w)
  unfolding recommend
  recommend-Gives query w k h = enabled-Gives query (s.generation_enabled w) (k w) h
