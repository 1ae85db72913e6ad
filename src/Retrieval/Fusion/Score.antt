-- ===== src/Retrieval/Fusion/Score.antt =====
-- The fused score against the formula of the module's docstring.
use anime_recommendation_eng.Base.{
  ℕ, ◌+◌, ◌≡◌, refl, sym, ap, ◌∙◌, inl, inr, Option, none, some, List, [], ◌∷◌, if◌then◌else◌,
  Bool-cases, All, All-take, map,
}
use anime_recommendation_eng.Base.Float.{FloatOps}
use anime_recommendation_eng.Base.Sort.{All-sort_desc}
use anime_recommendation_eng.Base.Text.{Text}
use anime_recommendation_eng.Retrieval.{Candidate, Key, key_of, key_eq, Hit, hit_key}
use anime_recommendation_eng.Retrieval.Fusion.{
  Accumulator, Table, upsert, add_dense, add_sparse, absorb, candidate_of, hybrid_key, fused_table,
  reciprocal_rank_fusion,
}
use anime_recommendation_eng.Retrieval.Fusion.Table.{
  eq_of_key_eq, lookup, score_of, updated, lookup-upsert, fused_table-Distinct, All-of_lookup,
}

module _ (f : FloatOps) where
  open f use {F}

  -- One ranked list's share of a key's score: a reciprocal for each hit with the key, in rank order.
  pub contribution : Key → ℕ → ℕ → List (Hit F) → F → F
  contribution key k_rrf rank [] total = total
  contribution key k_rrf rank (hit ∷ hits) total =
      contribution key k_rrf (rank + 1) hits
        (if key_eq (hit_key hit) key then f.add total (f.reciprocal (k_rrf + rank + 1)) else total)

  -- score(d) = Σ over the two lists of 1 / (k_rrf + rank), ranks counted from 1.
  pub rrf_score : Key → ℕ → List (Hit F) → List (Hit F) → F
  unfolding contribution
  rrf_score key k_rrf dense sparse =
      contribution key k_rrf 0 sparse (contribution key k_rrf 0 dense f.zero_f)

  abbrev Adds : (ℕ → Hit F → Accumulator F → Accumulator F) → Type 0
  Adds change =
      (n : ℕ) (hit : Hit F) (e : Accumulator F)
      → (change n hit e).rrf ≡ f.add e.rrf (f.reciprocal n)

  score-updated :
      (change : ℕ → Hit F → Accumulator F → Accumulator F)
      → Adds change
      → (n : ℕ) (hit : Hit F) (text : Text) (o : Option (Accumulator F))
      → (updated f text (change n hit) o).rrf ≡ f.add (score_of f o) (f.reciprocal n)
  score-updated change adds n hit text none = adds n hit _
  score-updated change adds n hit text (some e) = adds n hit e

  score-upsert :
      (change : ℕ → Hit F → Accumulator F → Accumulator F)
      → Adds change
      → (n : ℕ) (hit : Hit F) (key : Key) (acc : Table f)
      → score_of f (lookup f key (upsert f (hit_key hit) hit.text (change n hit) acc)) ≡ (
          if key_eq (hit_key hit) key
          then f.add (score_of f (lookup f key acc)) (f.reciprocal n)
          else score_of f (lookup f key acc))
  score-upsert change adds n hit key acc = elim (Bool-cases (key_eq (hit_key hit) key)) [
    | inl same ↦
        let e : hit_key hit ≡ key = eq_of_key_eq _ key same in
        ap (score_of f) (lookup-upsert f key (hit_key hit) hit.text (change n hit) acc)
        ∙ rw same
            (rw (score-updated change adds n hit hit.text (lookup f (hit_key hit) acc)) (rw e refl))
    | inr other ↦
        ap (score_of f) (lookup-upsert f key (hit_key hit) hit.text (change n hit) acc)
        ∙ rw other refl
  ]

  score-absorb :
      (change : ℕ → Hit F → Accumulator F → Accumulator F)
      → Adds change
      → (key : Key) (k_rrf rank : ℕ) (hits : List (Hit F)) (acc : Table f)
      → score_of f (lookup f key (absorb f change k_rrf rank hits acc))
        ≡ contribution key k_rrf rank hits (score_of f (lookup f key acc))
  unfolding absorb contribution
  score-absorb change adds key k_rrf rank [] acc = refl
  score-absorb change adds key k_rrf rank (hit ∷ hits) acc =
      score-absorb change adds key k_rrf (rank + 1) hits _
      ∙ ap (contribution key k_rrf (rank + 1) hits)
          (score-upsert change adds (k_rrf + rank + 1) hit key acc)

  score-fused_table :
      (key : Key) (dense sparse : List (Hit F)) (k_rrf : ℕ)
      → score_of f (lookup f key (fused_table f dense sparse k_rrf))
        ≡ rrf_score key k_rrf dense sparse
  unfolding fused_table rrf_score
  score-fused_table key dense sparse k_rrf =
      score-absorb (add_sparse f) (λ n hit e. refl) key k_rrf 0 sparse _
      ∙ ap (contribution key k_rrf 0 sparse)
          (score-absorb (add_dense f) (λ n hit e. refl) key k_rrf 0 dense [])

  All-map {κ} :
      (P : Candidate F → Type κ) (acc : Table f)
      → All (λ p. P (candidate_of f p)) acc
      → All P (map (candidate_of f) acc)
  All-map P [] h = tt
  All-map P (p ∷ acc) h = (h.0, All-map P acc h.1)

  -- Every fused candidate's hybrid score is the reciprocal-rank sum of its chunk over both lists,
  -- for any smoothing constant and any cut, also where a list names a chunk twice.
  pub hybrid_score-rrf :
      (dense sparse : List (Hit F)) (k_rrf top_k : ℕ)
      → All
          (λ c. c.hybrid_score ≡ some (rrf_score (key_of c) k_rrf dense sparse))
          (reciprocal_rank_fusion f dense sparse k_rrf top_k)
  unfolding reciprocal_rank_fusion
  hybrid_score-rrf dense sparse k_rrf top_k =
      let P =
        λ (c : Candidate F). c.hybrid_score ≡ some (rrf_score (key_of c) k_rrf dense sparse) in
      let acc = fused_table f dense sparse k_rrf in
      All-take P top_k _ (
        All-sort_desc f (hybrid_key f) P _ (
          All-map P acc (
            All-of_lookup f (λ p. P (candidate_of f p)) acc
              (fused_table-Distinct f dense sparse k_rrf)
              (λ k e found.
                ap some (sym (ap (score_of f) found) ∙ score-fused_table k dense sparse k_rrf)))))
