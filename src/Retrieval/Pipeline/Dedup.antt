-- ===== src/Retrieval/Pipeline/Dedup.antt =====
-- One chunk for each anime, and the best one.
use anime_recommendation_eng.Base.{
  ℕ, ◌≡◌, refl, sym, ◌⊎◌, inl, inr, true, false, ◌==◌, List, [], ◌∷◌, arith, Bool-cases, elem, All,
}
use mathlib.Core.Path.{subst}
use anime_recommendation_eng.Base.Float.{FloatOps, IsOrdered}
use anime_recommendation_eng.Base.Sort.{IsDescending, AtMost}
use anime_recommendation_eng.Retrieval.{Candidate}
use anime_recommendation_eng.Retrieval.Fusion.{hybrid_key}
use anime_recommendation_eng.Retrieval.Pipeline.{dedup_from, dedup_by_anime}

module _ (f : FloatOps) where
  open f use {F}

  -- No anime twice, and none of those already seen.
  abbrev pub Once : List ℕ → List (Candidate F) → Type 0
  Once seen [] = Unit
  Once seen (c ∷ cs) = (elem c.mal_id seen ≡ false) × Once (c.mal_id ∷ seen) cs

  -- A candidate of the list has the anime of `c`, and does not score lower.
  abbrev pub Covered : Candidate F → List (Candidate F) → Type 0
  Covered c [] = ⊥
  Covered c (d ∷ ds) = ((d.mal_id ≡ c.mal_id) × AtMost f (hybrid_key f) d c) ⊎ Covered c ds

  dedup_from-old :
      (seen : List ℕ) (c : Candidate F) (cs : List (Candidate F))
      → elem c.mal_id seen ≡ true
      → dedup_from seen (c ∷ cs) ≡ dedup_from seen cs
  unfolding dedup_from
  dedup_from-old seen c cs h = rw h

  dedup_from-new :
      (seen : List ℕ) (c : Candidate F) (cs : List (Candidate F))
      → elem c.mal_id seen ≡ false
      → dedup_from seen (c ∷ cs) ≡ c ∷ dedup_from (c.mal_id ∷ seen) cs
  unfolding dedup_from
  dedup_from-new seen c cs h = rw h

  dedup_from-Once : (seen : List ℕ) (cs : List (Candidate F)) → Once seen (dedup_from seen cs)
  unfolding dedup_from
  dedup_from-Once seen [] = tt
  dedup_from-Once seen (c ∷ cs) = elim (Bool-cases (elem c.mal_id seen)) [
    | inl old ↦ rw old (dedup_from-Once seen cs)
    | inr new ↦ rw new (new, dedup_from-Once (c.mal_id ∷ seen) cs)
  ]

  abbrev Kept : List ℕ → List (Candidate F) → Candidate F → Type 0
  Kept seen out c = (elem c.mal_id seen ≡ true) ⊎ Covered c out

  -- What a later stage covers stays covered when the first candidate `d` is put in front.
  All-Kept-cons :
      (seen : List ℕ) (d : Candidate F) (out cs : List (Candidate F))
      → All (AtMost f (hybrid_key f) d) cs
      → All (Kept (d.mal_id ∷ seen) out) cs
      → All (Kept seen (d ∷ out)) cs
  All-Kept-cons seen d out [] below h = tt
  All-Kept-cons seen d out (c ∷ cs) below h =
      (step (Bool-cases (c.mal_id == d.mal_id)) h.0, All-Kept-cons seen d out cs below.1 h.1)
    where
      step :
          ((c.mal_id == d.mal_id) ≡ true) ⊎ ((c.mal_id == d.mal_id) ≡ false)
          → Kept (d.mal_id ∷ seen) out c
          → Kept seen (d ∷ out) c
      step _ (inr covered) = inr (inr covered)
      step (inl same) (inl _) = inr (inl (ground arith, below.0))
      step (inr other) (inl old) = inl (ground arith)

  module _ (o : IsOrdered f) where
    dedup_from-Kept :
        (seen : List ℕ) (cs : List (Candidate F))
        → IsDescending f (hybrid_key f) cs
        → All (Kept seen (dedup_from seen cs)) cs
    dedup_from-Kept seen [] d = tt
    dedup_from-Kept seen (c ∷ cs) d = elim (Bool-cases (elem c.mal_id seen)) [
      | inl old ↦
          subst (λ out. All (Kept seen out) (c ∷ cs)) (sym (dedup_from-old seen c cs old))
            (inl old, dedup_from-Kept seen cs d.1)
      | inr new ↦
          subst (λ out. All (Kept seen out) (c ∷ cs)) (sym (dedup_from-new seen c cs new))
            (
              inr (inl (refl, o.lt_irrefl (hybrid_key f c))),
              All-Kept-cons seen c (dedup_from (c.mal_id ∷ seen) cs) cs d.0
                  (dedup_from-Kept (c.mal_id ∷ seen) cs d.1),
            )
    ]

    Covered-of_Kept :
        (out cs : List (Candidate F)) → All (Kept [] out) cs → All (λ c. Covered c out) cs
    Covered-of_Kept out [] h = tt
    Covered-of_Kept out (c ∷ cs) h = (go h.0, Covered-of_Kept out cs h.1)
      where
        go : Kept [] out c → Covered c out
        go (inl none_seen) = cc
        go (inr covered) = covered

    -- From a list that is sorted by hybrid score, `_dedup_by_anime` keeps no anime twice, and for
    -- every candidate of the input one of the same anime with at least its score.
    pub dedup_by_anime-Covered :
        (cs : List (Candidate F))
        → IsDescending f (hybrid_key f) cs
        → Once [] (dedup_by_anime cs) × All (λ c. Covered c (dedup_by_anime cs)) cs
    unfolding dedup_by_anime
    dedup_by_anime-Covered cs d =
        (dedup_from-Once [] cs, Covered-of_Kept _ cs (dedup_from-Kept [] cs d))
