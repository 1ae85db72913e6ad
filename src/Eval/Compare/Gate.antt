-- ===== src/Eval/Compare/Gate.antt =====
-- The gate of the comparison (packages/eval/src/anime_eval/compare.py): what it means that a result
-- is ok.
use mathlib.Core.Path.{subst}
use anime_recommendation_eng.Base.{
  ◌≡◌, refl, sym, not, true, false, List, [], ◌∷◌, ◌++◌, is_empty, Option, All, All-append, arith,
}
use anime_recommendation_eng.Base.Float.{FloatOps}
use anime_recommendation_eng.Base.Text.{Text, codes}
use anime_recommendation_eng.Eval.Dict.{has, collect}
use anime_recommendation_eng.Eval.Compare.{
  Ratio, MetricDelta, LiftCheck, ComparisonResult, gated_metrics, informational_metrics,
  lift_metrics, row_of, lift_of, extras_of, deltas_of, lifts_of, is_ok, regressions, lift_failures,
  lift_ok,
}
use anime_recommendation_eng.Eval.Compare.Rows.{
  All-keep_none, keep_none-All, All-left, All-collect, collect-All, OfRow, Holds, Fine, Lifts,
  Ahead, row_of-Fine, row_of-Holds, row_of-ungated, lift_of-Ahead, lift_of-Lifts,
}

All-each {κ} : {A : Type 0} (P : A → Type κ) → ((x : A) → P x) → (xs : List A) → All P xs
All-each P h [] = tt
All-each P h (x ∷ xs) = (h x, All-each P h xs)

All-weaken {κ μ} :
    {A : Type 0} (P : A → Type κ) (Q : A → Type μ)
    → ((x : A) → P x → Q x)
    → (xs : List A) → All P xs
    → All Q xs
All-weaken P Q h [] a = tt
All-weaken P Q h (x ∷ xs) a = (h x a.0, All-weaken P Q h xs a.1)

each_gated : All (λ n. has n gated_metrics ≡ true) gated_metrics
each_gated = (refl, (refl, (refl, (refl, (refl, (refl, (refl, (refl, (refl, tt)))))))))

module _ (f : FloatOps) (g : Ratio f) (threshold floor min_lift : f.F)
    (baseline candidate naive : List (Text × f.F)) where
  abbrev canonical : List Text
  canonical = gated_metrics ++ informational_metrics

  abbrev row : Text → Option (MetricDelta f.F)
  row n = row_of f g threshold floor baseline candidate (has n gated_metrics) n

  abbrev extra_row : Text → Option (MetricDelta f.F)
  extra_row = row_of f g threshold floor baseline candidate false

  abbrev extras : List Text
  extras = extras_of f g baseline candidate

  abbrev extra_rows : List (MetricDelta f.F)
  extra_rows = collect extra_row extras

  abbrev FineRow : Text → Type 0
  FineRow = OfRow (Fine f g threshold floor baseline candidate) row

  -- Every gated metric holds, and every lift metric is ahead.
  abbrev pub Passes : Type 0
  Passes =
      All (Holds f g threshold floor baseline candidate) gated_metrics
      × All (Lifts f g min_lift naive candidate) lift_metrics

  Holds-FineRow :
      All (Holds f g threshold floor baseline candidate) gated_metrics → All FineRow canonical
  Holds-FineRow h =
      All-append FineRow gated_metrics informational_metrics
        (All-weaken (Holds f g threshold floor baseline candidate) FineRow
          (λ n. row_of-Fine f g threshold floor baseline candidate (has n gated_metrics) n)
          gated_metrics h)
        (row_of-ungated f g threshold floor baseline candidate (codes "distinct_ratio"), tt)

  gated-Holds :
      (ns : List Text)
      → All (λ n. has n gated_metrics ≡ true) ns
      → All FineRow ns
      → All (Holds f g threshold floor baseline candidate) ns
  gated-Holds [] h fine = tt
  gated-Holds (n ∷ ns) h fine = (
    row_of-Holds f g threshold floor baseline candidate n (
        subst
          (λ b.
            OfRow (Fine f g threshold floor baseline candidate)
              (row_of f g threshold floor baseline candidate b) n)
          h.0 fine.0),
    gated-Holds ns h.1 fine.1,
  )

  module _ (r : ComparisonResult f.F)
      (deltas : r.deltas ≡ deltas_of f g threshold floor baseline candidate)
      (lifts : r.lifts ≡ lifts_of f g min_lift naive candidate) where
    abbrev FineDelta : MetricDelta f.F → Type 0
    FineDelta = Fine f g threshold floor baseline candidate

    abbrev AheadLift : LiftCheck f.F → Type 0
    AheadLift = Ahead f g min_lift naive candidate

    pub is_ok-Passes : is_ok f g r ≡ true → Passes
    unfolding deltas_of lifts_of
    is_ok-Passes h =
        let no_drop : is_empty (regressions f g r) ≡ true = ground (arith, h) in
        let no_fail : is_empty (lift_failures f g r) ≡ true = ground (arith, h) in
        let fine =
          subst (All FineDelta) deltas (All-keep_none (λ d. d.is_regression) r.deltas no_drop) in
        let ahead =
          subst (All AheadLift) lifts (All-keep_none (λ x. not (lift_ok f g x)) r.lifts no_fail) in
        (
          gated-Holds gated_metrics each_gated (
              All-left FineRow gated_metrics informational_metrics (
                collect-All FineDelta row canonical
                  (All-left FineDelta (collect row canonical) extra_rows fine))),
          All-weaken (OfRow AheadLift (lift_of f g min_lift naive candidate))
              (Lifts f g min_lift naive candidate) (lift_of-Lifts f g min_lift naive candidate)
              lift_metrics
              (collect-All AheadLift (lift_of f g min_lift naive candidate) lift_metrics ahead),
        )

    pub Passes-is_ok : Passes → is_ok f g r ≡ true
    unfolding deltas_of lifts_of
    Passes-is_ok h =
        let fine =
          All-append FineDelta (collect row canonical) extra_rows
            (All-collect FineDelta row canonical (Holds-FineRow h.0))
            (All-collect FineDelta extra_row extras (
              All-each (OfRow FineDelta extra_row)
                (row_of-ungated f g threshold floor baseline candidate) extras)) in
        let ahead = All-collect AheadLift (lift_of f g min_lift naive candidate) lift_metrics (
          All-weaken (Lifts f g min_lift naive candidate)
            (OfRow AheadLift (lift_of f g min_lift naive candidate))
            (lift_of-Ahead f g min_lift naive candidate) lift_metrics h.1) in
        let no_drop : is_empty (regressions f g r) ≡ true =
          keep_none-All (λ d. d.is_regression) r.deltas (subst (All FineDelta) (sym deltas) fine) in
        let no_fail : is_empty (lift_failures f g r) ≡ true =
          keep_none-All (λ x. not (lift_ok f g x)) r.lifts
            (subst (All AheadLift) (sym lifts) ahead) in
        rw (no_drop, no_fail) refl
