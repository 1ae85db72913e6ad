-- ===== src/Eval/Compare/Main/Exit.antt =====
-- The exit code of the comparison (packages/eval/src/anime_eval/compare.py).
use anime_recommendation_eng.Base.{
  ◌≡◌, ◌≤◌, ◌⊎◌, [], ◌++◌, arith, refl, ◌↔◌, inl, inr, Bool, true, false, Option, none, List,
}
use anime_recommendation_eng.Base.Action.{Exc, ok, raised}
use anime_recommendation_eng.Base.Float.{FloatOps}
use anime_recommendation_eng.Base.Text.{Text, codes}
use anime_recommendation_eng.Eval.Report.{Files, load_metrics, load_naive}
use anime_recommendation_eng.Eval.Compare.{
  Ratio, ComparisonResult, is_ok, compare_reports, deltas_of, lifts_of,
}
use anime_recommendation_eng.Eval.Compare.Gate.{Passes, is_ok-Passes, Passes-is_ok}
use anime_recommendation_eng.Eval.Compare.Json.{Json}
use anime_recommendation_eng.Eval.Compare.Render.{Formats}
use anime_recommendation_eng.Eval.Compare.Main.{
  Args, Ran, is_usage_error, main, put_out, rendered, exit_code, code_of,
}

code-zero : (b : Bool) → code_of b ≡ 0 → b ≡ true
code-zero true h = refl
code-zero false h = cc

code-one : (b : Bool) → code_of b ≤ 1
code-one true = omega arith
code-one false = omega arith

module _ (f : FloatOps) (g : Ratio f) (s : Formats f.F) (dumps : Json f.F → Text)
    (files : Files f.F) (args : Args f.F) where
  module _ (baseline candidate naive : List (Text × f.F)) (model model' : Option Text)
      (loads : load_metrics files args.baseline ≡ ok (baseline, model))
      (loads' : load_metrics files args.candidate ≡ ok (candidate, model'))
      (loads_naive : load_naive files args.candidate ≡ ok naive) where
    abbrev result : ComparisonResult f.F
    result = record {
      threshold = args.threshold;
      floor = args.floor;
      deltas = deltas_of f g args.threshold args.floor baseline candidate;
      lifts = lifts_of f g args.min_lift naive candidate;
      baseline_path = args.baseline;
      candidate_path = args.candidate;
      baseline_embedding_model = model;
      candidate_embedding_model = model';
    }

    compare_reports-result :
        compare_reports f g files args.baseline args.candidate args.threshold args.floor
          args.min_lift
        ≡ ok result
    unfolding compare_reports
    compare_reports-result = rw (loads, loads', loads_naive) refl

    -- Where both reports can be read, the run ends with the exit code 0 or 1. It is 0 exactly when no
    -- gated metric that both reports have dropped by more than the floor and by more than the
    -- threshold at once, and each lift metric that the candidate has for itself and for the naive
    -- retrieval is ahead by the least lift.
    pub main-exit :
        (ran : Ran) × (main f g s dumps files args ≡ ok ran)
        × ((ran.exit ≡ 0)
            ↔ Passes f g args.threshold args.floor args.min_lift baseline candidate naive)
        × (ran.exit ≤ 1)
    unfolding main
    main-exit =
        let code = exit_code f g s dumps result in
        let passes =
          is_ok-Passes f g args.threshold args.floor args.min_lift baseline candidate naive result
            refl refl in
        let is_fine =
          Passes-is_ok f g args.threshold args.floor args.min_lift baseline candidate naive result
            refl refl in
        (
          put_out f g s dumps args.output (rendered f g s dumps args.format result) code,
          rw compare_reports-result refl,
          (λ h. passes (code-zero (is_ok f g result) h), λ h. rw (is_fine h) refl),
          code-one (is_ok f g result),
        )

  -- A report that cannot be read ends the run with the exit code 2: nothing is printed on the
  -- standard output and nothing is written. The candidate is read after the baseline.
  pub main-refuses :
      (e : Exc) (baseline : List (Text × f.F)) (model : Option Text)
      → is_usage_error e.kind ≡ true
      → (load_metrics files args.baseline ≡ raised e)
        ⊎ ((load_metrics files args.baseline ≡ ok (baseline, model))
            × (load_metrics files args.candidate ≡ raised e))
      → main f g s dumps files args
        ≡ ok (record {
          exit = 2;
          stdout = [];
          stderr = codes "error: " ++ (e.message ++ codes "\n");
          written = none;
        })
  unfolding main compare_reports
  main-refuses e baseline model usage (inl first) = rw (first, usage) refl
  main-refuses e baseline model usage (inr (loads, second)) = rw (loads, second, usage) refl
