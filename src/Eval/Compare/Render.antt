-- ===== src/Eval/Compare/Render.antt =====
-- What the comparison of two reports prints (packages/eval/src/anime_eval/compare.py). The formats of
-- floats are an argument.
use anime_recommendation_eng.Base.{
  ℕ, zero, suc, ◌-◌, not, Option, none, some, List, [], ◌∷◌, ◌++◌, map, concat, length, is_empty,
  if◌then◌else◌, ◌||◌,
}
use anime_recommendation_eng.Base.Float.{FloatOps}
use anime_recommendation_eng.Base.Text.{Text, codes, text_eq, join}
use anime_recommendation_eng.Eval.Compare.{
  Ratio, MetricDelta, LiftCheck, ComparisonResult, lift_ok, regressions, lift_failures, is_ok,
}

-- `f"{x:.3f}"`, `f"{x:+.3f}"`, `f"{x:.0%}"` and `f"{x:+.2%}"`
pub record Formats (F : Type 0) : Type 0 where
  pub fixed3 : F → Text
  pub signed3 : F → Text
  pub percent0 : F → Text
  pub signed_percent2 : F → Text

abbrev pub spaces : ℕ → Text
spaces zero = []
spaces (suc n) = b' ' ∷ spaces n

-- `f"{s:>n}"` and `f"{s:<n}"`
abbrev pub right : ℕ → Text → Text
right n s = spaces (n - length s) ++ s

abbrev pub left : ℕ → Text → Text
left n s = s ++ spaces (n - length s)

abbrev pub repeat : ℕ → ℕ → Text
repeat c zero = []
repeat c (suc n) = c ∷ repeat c n

-- The two models, where both are named and differ.
abbrev pub models_changed : Option Text → Option Text → Option (Text × Text)
models_changed none c = none
models_changed (some b) none = none
models_changed (some b) (some c) =
    if is_empty b || (is_empty c || text_eq b c) then none else some (b, c)

module _ (f : FloatOps) (g : Ratio f) (s : Formats f.F) where
  -- `MetricDelta.direction`
  abbrev pub direction : MetricDelta f.F → Text
  direction d =
      if f.lt g.noise d.absolute_delta
      then codes "↑"
      else (if f.lt d.absolute_delta (g.neg g.noise) then codes "↓" else codes "·")

  abbrev pub model_note : Option (Text × Text) → List Text
  model_note none = []
  model_note (some (b, c)) =
      []
      ∷ concat (
          codes "> ⚠"
          ∷ (65039 ∷ [])
          ∷ codes " Embedding model changed: `"
          ∷ b
          ∷ codes "` -> `"
          ∷ c
          ∷ codes "`. IR-metric shifts may reflect that change, not a code regression."
          ∷ [])
      ∷ []

  abbrev pub flag : MetricDelta f.F → Text
  flag d = if d.is_regression then codes "🚫" else (if not d.is_gated then codes "·" else codes "✓")

  abbrev pub markdown_row : MetricDelta f.F → Text
  markdown_row d = concat (
      codes "| "
      ∷ d.name
      ∷ codes " | "
      ∷ s.fixed3 d.baseline
      ∷ codes " | "
      ∷ s.fixed3 d.candidate
      ∷ codes " "
      ∷ direction d
      ∷ codes " | "
      ∷ s.signed3 d.absolute_delta
      ∷ codes " | "
      ∷ s.signed_percent2 d.relative_delta
      ∷ codes " | "
      ∷ (if d.is_gated then codes "✓" else codes "·")
      ∷ codes " | "
      ∷ flag d
      ∷ codes " |"
      ∷ [])

  abbrev pub regressed : Text → ComparisonResult f.F → List Text
  regressed label r =
      if is_empty (regressions f g r)
      then []
      else [] ∷ (label ++ join (codes ", ") (map (λ d. d.name) (regressions f g r))) ∷ []

  unfoldable pub render_markdown : ComparisonResult f.F → Text
  unfolding join
  render_markdown r =
      let status = if is_ok f g r then codes "✅ **PASS**" else codes "❌ **REGRESSION**" in
      let head =
        (codes "### Eval gate: " ++ status)
        ∷ []
        ∷ concat (
            codes "_Threshold: relative drop > "
            ∷ s.percent0 r.threshold
            ∷ codes " AND absolute drop > "
            ∷ s.fixed3 r.floor
            ∷ codes " blocks merge._"
            ∷ [])
        ∷ [] in
      let table =
        []
        ∷ codes "| Metric | Baseline | Candidate | Δ abs | Δ rel | Gated | Regression? |"
        ∷ codes "|---|---:|---:|---:|---:|:---:|:---:|"
        ∷ map markdown_row r.deltas in
      join (codes "\n") (
        concat (
          head
          ∷ model_note (models_changed r.baseline_embedding_model r.candidate_embedding_model)
          ∷ table
          ∷ regressed (codes "**Regressed metrics:** ") r
          ∷ []))
      ++ codes "\n"

  abbrev pub text_note : Option (Text × Text) → List Text
  text_note none = []
  text_note (some (b, c)) =
      concat (codes "NOTE: embedding model changed (" ∷ b ∷ codes " -> " ∷ c ∷ codes ")" ∷ []) ∷ []

  abbrev pub text_row : MetricDelta f.F → Text
  text_row d =
      let marker =
        if d.is_regression then codes "!" else (if not d.is_gated then codes "." else codes " ") in
      concat (
        left 16 d.name
        ∷ codes " "
        ∷ right 10 (s.fixed3 d.baseline)
        ∷ codes " "
        ∷ right 10 (s.fixed3 d.candidate)
        ∷ codes " "
        ∷ right 9 (s.signed3 d.absolute_delta)
        ∷ codes " "
        ∷ right 9 (s.signed_percent2 d.relative_delta)
        ∷ codes " "
        ∷ marker
        ∷ [])

  abbrev pub lift_row : LiftCheck f.F → Text
  lift_row x = concat (
      left 16 x.name
      ∷ codes " "
      ∷ right 10 (s.fixed3 x.naive)
      ∷ codes " "
      ∷ right 10 (s.fixed3 x.advanced)
      ∷ codes " "
      ∷ right 9 (s.signed3 (f.sub x.advanced x.naive))
      ∷ codes " "
      ∷ (if lift_ok f g x then [] else codes "!")
      ∷ [])

  abbrev pub no_lift : List (LiftCheck f.F) → List Text
  no_lift [] = []
  no_lift (x ∷ xs) =
      []
      ∷ concat (
          codes "NO LIFT: "
          ∷ join (codes ", ") (map (λ y. y.name) (x ∷ xs))
          ∷ codes " — the advanced pipeline is not beating dense-only retrieval, so it is "
          ∷ codes "paying rerank+MMR latency for nothing. Check the reranker is actually "
          ∷ codes "running (a timeout degrades it to plain hybrid order, silently)."
          ∷ [])
      ∷ []

  abbrev pub lift_lines : List (LiftCheck f.F) → List (LiftCheck f.F) → List Text
  lift_lines [] failures = []
  lift_lines (x ∷ xs) failures =
      []
      ∷ concat (
          codes "Lift over naive (advanced must win by >= "
          ∷ s.signed3 x.min_lift
          ∷ codes "):"
          ∷ [])
      ∷ concat (
          left 16 (codes "metric")
          ∷ codes " "
          ∷ right 10 (codes "naive")
          ∷ codes " "
          ∷ right 10 (codes "advanced")
          ∷ codes " "
          ∷ right 9 (codes "lift")
          ∷ [])
      ∷ repeat b'-' 48
      ∷ (map lift_row (x ∷ xs) ++ no_lift failures)

  unfoldable pub render_text : ComparisonResult f.F → Text
  unfolding join
  render_text r =
      let status = if is_ok f g r then codes "PASS" else codes "REGRESSION" in
      let head =
        (codes "Eval gate: " ++ status)
        ∷ concat (
            codes "Threshold relative="
            ∷ s.percent0 r.threshold
            ∷ codes " floor="
            ∷ s.fixed3 r.floor
            ∷ [])
        ∷ (codes "Baseline:  " ++ r.baseline_path)
        ∷ (codes "Candidate: " ++ r.candidate_path)
        ∷ [] in
      let table =
        []
        ∷ concat (
            left 16 (codes "metric")
            ∷ codes " "
            ∷ right 10 (codes "baseline")
            ∷ codes " "
            ∷ right 10 (codes "candidate")
            ∷ codes " "
            ∷ right 9 (codes "d-abs")
            ∷ codes " "
            ∷ right 9 (codes "d-rel")
            ∷ [])
        ∷ repeat b'-' 56
        ∷ map text_row r.deltas in
      join (codes "\n") (
        concat (
          head
          ∷ text_note (models_changed r.baseline_embedding_model r.candidate_embedding_model)
          ∷ table
          ∷ regressed (codes "Regressed metrics: ") r
          ∷ lift_lines r.lifts (lift_failures f g r)
          ∷ []))
      ++ codes "\n"
