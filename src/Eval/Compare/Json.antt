-- ===== src/Eval/Compare/Json.antt =====
-- The JSON form of a comparison (packages/eval/src/anime_eval/compare.py, `ComparisonResult.to_dict`).
use anime_recommendation_eng.Base.{Bool, Option, none, some, List, [], ◌∷◌}
use anime_recommendation_eng.Base.Float.{FloatOps}
use anime_recommendation_eng.Base.Text.{Text, codes}
use anime_recommendation_eng.Eval.Compare.{
  Ratio, MetricDelta, LiftCheck, ComparisonResult, lift_ok, regressions, is_ok,
}

mutual
  -- What `json.dumps` prints.
  pub data Json (F : Type 0) : Type 0 where
    null : Json F
    boolean : Bool → Json F
    number : F → Json F
    string : Text → Json F
    array : Elements F → Json F
    object : Members F → Json F

  pub data Elements (F : Type 0) : Type 0 where
    no_elements : Elements F
    element : Json F → Elements F → Elements F

  pub data Members (F : Type 0) : Type 0 where
    no_members : Members F
    member : Text → Json F → Members F → Members F

module _ {F : Type 0} where
  abbrev pub array_of : {A : Type 0} → (A → Json F) → List A → Elements F
  array_of k [] = no_elements
  array_of k (x ∷ xs) = element (k x) (array_of k xs)

  abbrev pub or_null : Option Text → Json F
  or_null none = null
  or_null (some t) = string t

  -- The members that a delta has in both lists, before the rest.
  abbrev pub delta_members : MetricDelta F → Members F → Members F
  delta_members d rest = member (codes "metric") (string d.name) (
      member (codes "baseline") (number d.baseline) (
        member (codes "candidate") (number d.candidate) (
          member (codes "absolute_delta") (number d.absolute_delta)
            (member (codes "relative_delta") (number d.relative_delta) rest))))

  abbrev pub regression_object : MetricDelta F → Json F
  regression_object d = object (delta_members d no_members)

  abbrev pub delta_object : MetricDelta F → Json F
  delta_object d = object (
      delta_members d (
        member (codes "is_regression") (boolean d.is_regression)
          (member (codes "is_gated") (boolean d.is_gated) no_members)))

module _ (f : FloatOps) (g : Ratio f) where
  abbrev pub lift_object : LiftCheck f.F → Json f.F
  lift_object x = object (
      member (codes "metric") (string x.name) (
        member (codes "naive") (number x.naive) (
          member (codes "advanced") (number x.advanced) (
            member (codes "lift") (number (f.sub x.advanced x.naive)) (
              member (codes "min_lift") (number x.min_lift)
                (member (codes "ok") (boolean (lift_ok f g x)) no_members))))))

  -- `ComparisonResult.to_dict`
  unfoldable pub to_dict : ComparisonResult f.F → Json f.F
  to_dict r = object (
      member (codes "ok") (boolean (is_ok f g r)) (
        member (codes "threshold") (number r.threshold) (
          member (codes "floor") (number r.floor) (
            member (codes "baseline_path") (string r.baseline_path) (
              member (codes "candidate_path") (string r.candidate_path) (
                member (codes "baseline_embedding_model") (or_null r.baseline_embedding_model) (
                  member (codes "candidate_embedding_model") (or_null r.candidate_embedding_model) (
                    member (codes "regressions")
                      (array (array_of regression_object (regressions f g r)))
                      (member (codes "deltas") (array (array_of delta_object r.deltas)) (
                        member (codes "lifts") (array (array_of lift_object r.lifts))
                          no_members))))))))))
