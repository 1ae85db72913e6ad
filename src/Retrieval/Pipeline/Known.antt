-- ===== src/Retrieval/Pipeline/Known.antt =====
-- Where the candidates come from: the pipeline returns nothing that the indexes did not
-- (packages/retrieval/src/anime_retrieval/pipeline.py and hybrid.py).
use anime_recommendation_eng.Base.{
  ℕ, suc, ◌+◌, ◌≡◌, inl, inr, Bool, true, Option, none, some, List, [], ◌∷◌, map, keep, elem,
  Bool-cases, Option-cases, All, All-take, leb,
}
use mathlib.Core.Path.{subst}
use anime_recommendation_eng.Base.Action.{Action, Slot, Outcome, ok, raised, cancelled}
use anime_recommendation_eng.Base.Float.{FloatOps}
use anime_recommendation_eng.Base.Raises.{Returns}
use anime_recommendation_eng.Base.Sort.{All-sort_desc}
use anime_recommendation_eng.Base.Text.{Text}
use anime_recommendation_eng.Core.Breaker.{
  Breaker, guarded, call, settle, with_timeout, read_state, is_open,
}
use anime_recommendation_eng.Retrieval.{Candidate, Key, key_eq, Hit, hit_key}
use anime_recommendation_eng.Retrieval.Fusion.{
  Accumulator, Table, upsert, absorb, fused_table, add_dense, add_sparse, candidate_of, hybrid_key,
  reciprocal_rank_fusion,
}
use anime_recommendation_eng.Retrieval.Pipeline.{dedup_from, scored, ranked}

module _ (catalogue : List ℕ) where
  module _ {F : Type 0} where
    abbrev pub Known : List (Candidate F) → Type 0
    Known cs = All (λ c. elem c.mal_id catalogue ≡ true) cs

    abbrev pub KnownHits : List (Hit F) → Type 0
    KnownHits hits = All (λ h. elem h.mal_id catalogue ≡ true) hits

    pub dedup_from-Known :
        (seen : List ℕ) (cs : List (Candidate F)) → Known cs → Known (dedup_from seen cs)
    unfolding dedup_from
    dedup_from-Known seen [] h = tt
    dedup_from-Known seen (c ∷ cs) h = elim (Bool-cases (elem c.mal_id seen)) [
      | inl old ↦ rw old (dedup_from-Known seen cs h.1)
      | inr new ↦ rw new (h.0, dedup_from-Known (c.mal_id ∷ seen) cs h.1)
    ]

    abbrev pub KnownIf : Option (List (Candidate F)) → Type 0
    KnownIf none = Unit
    KnownIf (some cs) = Known cs

    pub scored-Known :
        (cs : List (Candidate F)) (scores : List F) → Known cs → KnownIf (scored cs scores)
    unfolding scored
    scored-Known [] [] h = tt
    scored-Known [] (_ ∷ _) h = tt
    scored-Known (_ ∷ _) [] h = tt
    scored-Known (c ∷ cs) (s ∷ ss) h = elim (Option-cases (scored cs ss)) [
      | inl short ↦ rw short tt
      | inr (rest, e) ↦ rw e (h.0, subst KnownIf e (scored-Known cs ss h.1))
    ]

    pub ranked-Known : (i : ℕ) (cs : List (Candidate F)) → Known cs → Known (ranked i cs)
    unfolding ranked
    ranked-Known i [] h = tt
    ranked-Known i (c ∷ cs) h = (h.0, ranked-Known (suc i) cs h.1)

    pub keep-Known :
        (p : Candidate F → Bool) (cs : List (Candidate F)) → Known cs → Known (keep p cs)
    keep-Known p [] h = tt
    keep-Known p (c ∷ cs) h = elim (Bool-cases (p c)) [
      | inl kept ↦ rw kept (h.0, keep-Known p cs h.1)
      | inr gone ↦ rw gone (keep-Known p cs h.1)
    ]

  module _ (f : FloatOps) where
    open f use {F}

    KnownTable : Table f → Type 0
    KnownTable acc = All (λ p. elem p.0.0 catalogue ≡ true) acc

    upsert-Known :
        (key : Key) (text : Text) (g : Accumulator F → Accumulator F) (acc : Table f)
        → elem key.0 catalogue ≡ true
        → KnownTable acc
        → KnownTable (upsert f key text g acc)
    unfolding upsert KnownTable
    upsert-Known key text g [] h k = (h, tt)
    upsert-Known key text g ((k', e) ∷ acc) h k = elim (Bool-cases (key_eq k' key)) [
      | inl same ↦ rw same k
      | inr other ↦ rw other (k.0, upsert-Known key text g acc h k.1)
    ]

    absorb-Known :
        (change : ℕ → Hit F → Accumulator F → Accumulator F) (k_rrf rank : ℕ) (hits : List (Hit F))
        (acc : Table f)
        → KnownHits hits
        → KnownTable acc
        → KnownTable (absorb f change k_rrf rank hits acc)
    unfolding absorb
    absorb-Known change k_rrf rank [] acc h k = k
    absorb-Known change k_rrf rank (hit ∷ hits) acc h k =
        absorb-Known change k_rrf (rank + 1) hits _ h.1
          (upsert-Known (hit_key hit) hit.text (change (k_rrf + rank + 1) hit) acc h.0 k)

    candidates-Known : (acc : Table f) → KnownTable acc → Known (map (candidate_of f) acc)
    unfolding KnownTable
    candidates-Known [] k = tt
    candidates-Known (p ∷ acc) k = (k.0, candidates-Known acc k.1)

    pub fusion-Known :
        (dense sparse : List (Hit F)) (k_rrf top_k : ℕ)
        → KnownHits dense
        → KnownHits sparse
        → Known (reciprocal_rank_fusion f dense sparse k_rrf top_k)
    unfolding reciprocal_rank_fusion fused_table KnownTable
    fusion-Known dense sparse k_rrf top_k h k =
        let P = λ (c : Candidate F). elem c.mal_id catalogue ≡ true in
        All-take P top_k _ (
          All-sort_desc f (hybrid_key f) P _ (
            candidates-Known _ (
              absorb-Known (add_sparse f) k_rrf 0 sparse _ k
                (absorb-Known (add_dense f) k_rrf 0 dense [] h tt))))

module _ {W A : Type 0} (P : A → Type 0) (clock : W → ℕ) (slot : Slot W Breaker) where
  settle-Returns : (p : Outcome A × W) → Returns P p → Returns P (settle clock slot p)
  unfolding settle
  settle-Returns (ok a, w) h = h
  settle-Returns (raised e, w) h = tt
  settle-Returns (cancelled, w) h = tt

  with_timeout-Returns :
      (seconds : ℕ) (func : Action W A) (w : W)
      → Returns P (func w)
      → Returns P (with_timeout clock seconds func w)
  unfolding with_timeout
  with_timeout-Returns seconds func w h =
      elim (Bool-cases (leb (clock (func w).1) (clock w + seconds))) [
        | inl early ↦ rw early h
        | inr late ↦ rw late tt
      ]

  -- What a guarded call returns, its function returned.
  pub guarded-Returns :
      (seconds : ℕ) (func : Action W A) (w : W)
      → ((w : W) → Returns P (func w))
      → Returns P (guarded clock slot seconds func w)
  unfolding guarded call
  guarded-Returns seconds func w h =
      elim (Bool-cases (is_open (read_state (clock w) (slot.read w)).state)) [
        | inl shut ↦ rw shut tt
        | inr runs ↦ rw runs (settle-Returns _ (with_timeout-Returns seconds func _ (h _)))
      ]
