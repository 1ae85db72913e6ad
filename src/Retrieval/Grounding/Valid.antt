-- ===== src/Retrieval/Grounding/Valid.antt =====
-- Output validation: whatever the model wrote, the ids are those of retrieved candidates.
use anime_recommendation_eng.Base.{
  ℕ, ◌≤◌, ◌≡◌, refl, ap, inl, inr, true, ◌||◌, none, some, List, [], ◌∷◌, arith, map, elem,
  is_empty as is_nil, length, length-take, take, Bool-cases, Option-cases, All, All-take,
}
use anime_recommendation_eng.Base.Text.{Text, Unicode, text_eq, contains, strip}
use anime_recommendation_eng.Core.Schemas.{
  Recommendation, Recommendations, new_recommendations, max_recommendations,
}
use anime_recommendation_eng.Retrieval.{Candidate}
use anime_recommendation_eng.Retrieval.Grounding.{
  Titles, assign, title_lookup, candidate_title, titles_from, title_to_id, match_part, match_title,
  grounded, ground_recommendations,
}

module _ (ids : List ℕ) where
  -- Every id of the dict is one of the list.
  abbrev IdsIn : Titles → Type 0
  IdsIn d = All (λ e. elem e.1 ids ≡ true) d

  assign-IdsIn :
      (title : Text) (i : ℕ) (d : Titles) → elem i ids ≡ true → IdsIn d → IdsIn (assign title i d)
  unfolding assign
  assign-IdsIn title i [] h k = (h, tt)
  assign-IdsIn title i ((t, j) ∷ d) h k = elim (Bool-cases (text_eq t title)) [
    | inl same ↦ rw same (h, k.1)
    | inr other ↦ rw other (k.0, assign-IdsIn title i d h k.1)
  ]

  title_lookup-In :
      (title : Text) (d : Titles) (i : ℕ)
      → IdsIn d
      → title_lookup title d ≡ some i
      → elem i ids ≡ true
  unfolding title_lookup
  title_lookup-In title [] i k e = cc
  title_lookup-In title ((t, j) ∷ d) i k e = ground (arith, title_lookup-In title d i k.1)

  module _ (u : Unicode) where
    match_part-In :
        (needle : Text) (d : Titles) (i : ℕ)
        → IdsIn d
        → match_part u needle d ≡ some i
        → elem i ids ≡ true
    unfolding match_part
    match_part-In needle [] i k e = cc
    match_part-In needle ((t, j) ∷ d) i k e =
        elim (Bool-cases (contains needle t || contains t needle)) [
          | inl here ↦ let e' : some j ≡ some _ = rw here at e in ground (arith, k.0)
          | inr later ↦ match_part-In needle d i k.1 (rw later at e)
        ]

    match_title-In :
        (title : Text) (d : Titles) (i : ℕ)
        → IdsIn d
        → match_title u title d ≡ some i
        → elem i ids ≡ true
    unfolding match_title
    match_title-In title d i k e = elim (Bool-cases (is_nil (u.lower (strip u title)))) [
      | inl blank ↦ let e' : none ≡ some _ = rw blank at e in cc
      | inr needle ↦ elim (Option-cases (title_lookup (u.lower (strip u title)) d)) [
        | inl miss ↦ match_part-In (u.lower (strip u title)) d i k (rw (needle, miss) at e)
        | inr (j, hit) ↦
            let e' : some j ≡ some _ = rw (needle, hit) at e in
            ground (arith, title_lookup-In (u.lower (strip u title)) d j k hit)
      ]
    ]

    grounded-In :
        (d : Titles) (items : List Recommendation)
        → IdsIn d
        → All (λ r. elem r.mal_id ids ≡ true) (grounded u ids d items)
    unfolding grounded
    grounded-In d [] k = tt
    grounded-In d (r ∷ rs) k = elim (Bool-cases (elem r.mal_id ids)) [
      | inl valid ↦ rw valid (valid, grounded-In d rs k)
      | inr wrong ↦ elim (Option-cases (match_title u r.title d)) [
        | inl miss ↦ rw (wrong, miss) (grounded-In d rs k)
        | inr (i, hit) ↦ rw (wrong, hit) (match_title-In r.title d i k hit, grounded-In d rs k)
      ]
    ]

    grounded_valid :
        (d : Titles) (items : List Recommendation)
        → All (λ r. elem r.mal_id ids ≡ true) items
        → grounded u ids d items ≡ items
    unfolding grounded
    grounded_valid d [] h = refl
    grounded_valid d (r ∷ rs) h = rw h.0 (ap (◌∷◌ r) (grounded_valid d rs h.1))

-- Dicts that are built from candidates hold ids of candidates.
titles_from-IdsIn :
    {F : Type 0} (u : Unicode) (ids : List ℕ) (cs : List (Candidate F)) (d : Titles)
    → All (λ c. elem c.mal_id ids ≡ true) cs
    → IdsIn ids d
    → IdsIn ids (titles_from u cs d)
unfolding titles_from
titles_from-IdsIn u ids [] d h k = k
titles_from-IdsIn u ids (c ∷ cs) d h k = elim (Bool-cases (is_nil (candidate_title u c.text))) [
  | inl untitled ↦ rw untitled (titles_from-IdsIn u ids cs d h.1 k)
  | inr titled ↦ rw titled (
      titles_from-IdsIn u ids cs _ h.1
        (assign-IdsIn ids (u.lower (candidate_title u c.text)) c.mal_id d h.0 k))
]

All-elem-cons :
    {F : Type 0} (i : ℕ) (ids : List ℕ) (cs : List (Candidate F))
    → All (λ c. elem c.mal_id ids ≡ true) cs
    → All (λ c. elem c.mal_id (i ∷ ids) ≡ true) cs
All-elem-cons i ids [] h = tt
All-elem-cons i ids (c ∷ cs) h = (ground (arith, h.0), All-elem-cons i ids cs h.1)

All-elem_self :
    {F : Type 0} (cs : List (Candidate F))
    → All (λ c. elem c.mal_id (map (λ d. d.mal_id) cs) ≡ true) cs
All-elem_self [] = tt
All-elem_self (c ∷ cs) =
    (ground arith, All-elem-cons c.mal_id (map (λ d. d.mal_id) cs) cs (All-elem_self cs))

module _ {F : Type 0} (u : Unicode) (recs : Recommendations) (candidates : List (Candidate F)) where
  -- Every recommendation that survives grounding has the id of a retrieved candidate, whatever ids
  -- and titles the model wrote, and there are at most five.
  pub ground_recommendations-In :
      let items = (ground_recommendations u recs candidates).items in
      All (λ r. elem r.mal_id (map (λ c. c.mal_id) candidates) ≡ true) items
      × (length items ≤ max_recommendations)
  unfolding ground_recommendations new_recommendations title_to_id
  ground_recommendations-In =
      let ids = map (λ (c : Candidate F). c.mal_id) candidates in
      let kept = grounded u ids (title_to_id u candidates) recs.items in
      (
        All-take (λ r. elem r.mal_id ids ≡ true) max_recommendations kept
            (grounded-In ids u (title_to_id u candidates) recs.items
              (titles_from-IdsIn u ids candidates [] (All-elem_self candidates) tt)),
        omega (arith, length-take max_recommendations kept),
      )

  -- An answer whose ids are all valid is returned as it is, in its order, up to the cut at five.
  pub ground_recommendations_valid :
      All (λ r. elem r.mal_id (map (λ c. c.mal_id) candidates) ≡ true) recs.items
      → (ground_recommendations u recs candidates).items ≡ take max_recommendations recs.items
  unfolding ground_recommendations new_recommendations
  ground_recommendations_valid h = ap (take max_recommendations) (
      grounded_valid (map (λ (c : Candidate F). c.mal_id) candidates) u (title_to_id u candidates)
        recs.items h)
