-- ===== src/Eval/Compare.antt =====
-- The comparison of two evaluation reports (packages/eval/src/anime_eval/compare.py). The floats and
-- what the files hold are arguments; the rendering is in Compare/Render.
pub mod Render
pub mod Json
pub mod Main
pub mod Rows
pub mod Gate
use anime_recommendation_eng.Base.{
  ℕ, Bool, true, false, not, ◌&&◌, ◌||◌, Option, none, some, List, [], ◌∷◌, ◌++◌, map, any, keep,
  is_empty, if◌then◌else◌,
}
use anime_recommendation_eng.Base.Action.{Outcome, ok}
use anime_recommendation_eng.Base.Float.{FloatOps}
use anime_recommendation_eng.Base.Text.{Text, codes}
use anime_recommendation_eng.Eval.Dict.{has, lookup, keys, in_dict, sorted, collect, of_both}
use anime_recommendation_eng.Eval.Report.{Files, bind, load_metrics, load_naive}

-- What the comparison uses of the floats besides: `/`, unary `-`, `abs`, 1e-12 and 1e-9.
pub record Ratio (f : FloatOps) : Type 0 where
  pub div : f.F → f.F → f.F
  pub neg : f.F → f.F
  pub abs : f.F → f.F
  pub tiny : f.F
  pub noise : f.F

abbrev pub gated_metrics : List Text
gated_metrics =
    codes "success@1"
    ∷ codes "success@3"
    ∷ codes "precision@1"
    ∷ codes "precision@3"
    ∷ codes "recall@1"
    ∷ codes "recall@3"
    ∷ codes "ndcg@1"
    ∷ codes "ndcg@3"
    ∷ codes "mrr"
    ∷ []

abbrev pub informational_metrics : List Text
informational_metrics = codes "distinct_ratio" ∷ []

abbrev pub lift_metrics : List Text
lift_metrics = codes "success@1" ∷ codes "mrr" ∷ []

pub record MetricDelta (F : Type 0) : Type 0 where
  pub name : Text
  pub baseline : F
  pub candidate : F
  pub absolute_delta : F
  pub relative_delta : F
  pub is_regression : Bool
  pub is_gated : Bool

pub record LiftCheck (F : Type 0) : Type 0 where
  pub name : Text
  pub naive : F
  pub advanced : F
  pub min_lift : F

pub record ComparisonResult (F : Type 0) : Type 0 where
  pub threshold : F
  pub floor : F
  pub deltas : List (MetricDelta F)
  pub lifts : List (LiftCheck F)
  pub baseline_path : Text
  pub candidate_path : Text
  pub baseline_embedding_model : Option Text
  pub candidate_embedding_model : Option Text

module _ (f : FloatOps) (g : Ratio f) where
  abbrev pub relative_of : f.F → f.F → f.F
  relative_of absolute b = if f.lt g.tiny (g.abs b) then g.div absolute b else f.zero_f

  -- One row of the comparison.
  unfoldable pub delta_of : f.F → f.F → Bool → Text → f.F → f.F → MetricDelta f.F
  delta_of threshold floor is_gated name b c =
      let absolute = f.sub c b in
      let relative = relative_of absolute b in
      record {
        name = name;
        baseline = b;
        candidate = c;
        absolute_delta = absolute;
        relative_delta = relative;
        is_regression =
            is_gated && (f.lt absolute (g.neg floor) && f.lt relative (g.neg threshold));
        is_gated = is_gated;
      }

  -- The row of a name that both reports have.
  unfoldable pub row_of :
      f.F → f.F → List (Text × f.F) → List (Text × f.F) → Bool → Text → Option (MetricDelta f.F)
  unfolding delta_of
  row_of threshold floor baseline candidate is_gated name =
      of_both (delta_of threshold floor is_gated name) (lookup name baseline)
        (lookup name candidate)

  -- `(set(baseline_metrics) & set(candidate_metrics)) - seen`, sorted
  unfoldable pub extras_of : List (Text × f.F) → List (Text × f.F) → List Text
  unfolding sorted
  extras_of baseline candidate =
      let canonical = gated_metrics ++ informational_metrics in
      let seen = keep (λ n. in_dict n baseline && in_dict n candidate) canonical in
      sorted (keep (λ n. in_dict n candidate && not (has n seen)) (keys baseline))

  unfoldable pub deltas_of :
      f.F → f.F → List (Text × f.F) → List (Text × f.F) → List (MetricDelta f.F)
  unfolding row_of extras_of
  deltas_of threshold floor baseline candidate =
      collect (λ n. row_of threshold floor baseline candidate (has n gated_metrics) n)
        (gated_metrics ++ informational_metrics)
      ++ collect (row_of threshold floor baseline candidate false) (extras_of baseline candidate)

  -- The check of a name that both have.
  unfoldable pub lift_of :
      f.F → List (Text × f.F) → List (Text × f.F) → Text → Option (LiftCheck f.F)
  lift_of min_lift naive candidate n =
      of_both (λ v a. record { name = n; naive = v; advanced = a; min_lift = min_lift })
        (lookup n naive) (lookup n candidate)

  unfoldable pub lifts_of : f.F → List (Text × f.F) → List (Text × f.F) → List (LiftCheck f.F)
  unfolding lift_of
  lifts_of min_lift naive candidate = collect (lift_of min_lift naive candidate) lift_metrics

  -- `LiftCheck.ok`: `lift >= min_lift`
  abbrev pub lift_ok : LiftCheck f.F → Bool
  lift_ok x = f.le x.min_lift (f.sub x.advanced x.naive)

  abbrev pub regressions : ComparisonResult f.F → List (MetricDelta f.F)
  regressions r = keep (λ d. d.is_regression) r.deltas

  abbrev pub lift_failures : ComparisonResult f.F → List (LiftCheck f.F)
  lift_failures r = keep (λ x. not (lift_ok x)) r.lifts

  -- `ComparisonResult.ok`
  abbrev pub is_ok : ComparisonResult f.F → Bool
  is_ok r = is_empty (regressions r) && is_empty (lift_failures r)

  -- `compare_reports`
  unfoldable pub compare_reports :
      Files f.F → Text → Text → f.F → f.F → f.F → Outcome (ComparisonResult f.F)
  unfolding load_metrics load_naive deltas_of lifts_of
  compare_reports files baseline_path candidate_path threshold floor min_lift =
      bind (load_metrics files baseline_path) (λ b. bind (load_metrics files candidate_path) (λ c.
        bind (load_naive files candidate_path) (λ naive. ok (record {
          threshold = threshold;
          floor = floor;
          deltas = deltas_of threshold floor b.0 c.0;
          lifts = lifts_of min_lift naive c.0;
          baseline_path = baseline_path;
          candidate_path = candidate_path;
          baseline_embedding_model = b.1;
          candidate_embedding_model = c.1;
        }))))
