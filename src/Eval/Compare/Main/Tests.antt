-- ===== src/Eval/Compare/Main/Tests.antt =====
-- Tests of the comparison. The floats are thousandths around an origin, so that they have signs.
use anime_recommendation_eng.Base.{
  ℕ, ◌+◌, ◌-◌, ◌*◌, ◌/◌, ◌≤◌, ◌≡◌, ◌↔◌, refl, inr, none, some, List, [], ◌∷◌, ltb, leb,
  if◌then◌else◌,
}
use anime_recommendation_eng.Base.Action.{Outcome, ok, raised}
use anime_recommendation_eng.Base.Float.{FloatOps}
use anime_recommendation_eng.Base.Text.{Text, codes, text_eq, decimal}
use anime_recommendation_eng.Eval.Dict.{sorted, insert_name}
use anime_recommendation_eng.Eval.Report.{Files, Report, load_metrics, load_naive, not_found}
use anime_recommendation_eng.Eval.Compare.{
  Ratio, compare_reports, deltas_of, lifts_of, row_of, lift_of, delta_of, extras_of,
}
use anime_recommendation_eng.Eval.Compare.Gate.{Passes}
use anime_recommendation_eng.Eval.Compare.Json.{Json}
use anime_recommendation_eng.Eval.Compare.Render.{Formats}
use anime_recommendation_eng.Eval.Compare.Main.{Args, Ran, json, main}
use anime_recommendation_eng.Eval.Compare.Main.Exit.{main-exit, main-refuses}

abbrev origin : ℕ
origin = 1_000_000

abbrev thousandths : FloatOps
thousandths = record {
  F = ℕ;
  zero_f = origin;
  one_f = origin + 1000;
  neg_inf = 0;
  add = λ a b. a + b - origin;
  sub = λ a b. a + origin - b;
  mul = λ a b. a;
  reciprocal = λ n. origin + 1000 / n;
  lt = ltb;
  le = leb;
}

-- A quotient with a positive divisor.
abbrev divide : ℕ → ℕ → ℕ
divide a b =
    if ltb a origin
    then origin - (origin - a) * 1000 / (b - origin)
    else origin + (a - origin) * 1000 / (b - origin)

abbrev ratio : Ratio thousandths
ratio = record {
  div = divide;
  neg = λ a. origin + origin - a;
  abs = λ a. if ltb a origin then origin + origin - a else a;
  tiny = origin;
  noise = origin;
}

abbrev formats : Formats ℕ
formats = record {
  fixed3 = decimal;
  signed3 = decimal;
  percent0 = decimal;
  signed_percent2 = decimal;
}

abbrev dumps : Json ℕ → Text
dumps j = codes "{}"

abbrev with_mrr : ℕ → List (Text × ℕ)
with_mrr n = (codes "mrr", origin + n) ∷ []

abbrev report : ℕ → Report ℕ
report n = record {
  metrics = none;
  advanced = some (with_mrr n);
  naive = some (with_mrr 600);
  embedding_model = none;
}

-- The report at "100" has an mrr of 0.1, and so on; the file "gone" is not there.
abbrev files : Files ℕ
files path =
    if text_eq path (codes "800")
    then some (ok (report 800))
    else (if text_eq path (codes "700") then some (ok (report 700)) else none)

abbrev compare_with : Text → Args ℕ
compare_with path = record {
  baseline = codes "800";
  candidate = path;
  threshold = origin + 30;
  floor = origin + 10;
  min_lift = origin + 10;
  format = json;
  output = none;
}

abbrev run : Text → Outcome Ran
run path = main thousandths ratio formats dumps files (compare_with path)

abbrev ran : ℕ → Outcome Ran
ran code = ok (record { exit = code; stdout = codes "{}\n"; stderr = []; written = none })

passes_unchanged : run (codes "800") ≡ ran 0
unfolding main compare_reports load_metrics load_naive deltas_of lifts_of row_of lift_of delta_of
    extras_of sorted insert_name
passes_unchanged = refl

blocks_a_drop : run (codes "700") ≡ ran 1
unfolding main compare_reports load_metrics load_naive deltas_of lifts_of row_of lift_of delta_of
    extras_of sorted insert_name
blocks_a_drop = refl

reads_800 : load_metrics files (codes "800") ≡ ok (with_mrr 800, none)
unfolding load_metrics
reads_800 = refl

reads_700 : load_metrics files (codes "700") ≡ ok (with_mrr 700, none)
unfolding load_metrics
reads_700 = refl

reads_naive : load_naive files (codes "700") ≡ ok (with_mrr 600)
unfolding load_naive
reads_naive = refl

misses_a_file : load_metrics files (codes "gone") ≡ raised (not_found (codes "gone"))
unfolding load_metrics
misses_a_file = refl

main-exit_example :
    (r : Ran) × (run (codes "700") ≡ ok r)
    × ((r.exit ≡ 0)
        ↔ Passes thousandths ratio
            (origin + 30)
            (origin + 10)
            (origin + 10)
            (with_mrr 800)
            (with_mrr 700)
            (with_mrr 600))
    × (r.exit ≤ 1)
main-exit_example =
    main-exit thousandths ratio formats dumps files (compare_with (codes "700")) (with_mrr 800)
      (with_mrr 700) (with_mrr 600) none none reads_800 reads_700 reads_naive

main-refuses_test :
    run (codes "gone")
    ≡ ok (record {
      exit = 2;
      stdout = [];
      stderr = codes "error: Eval report not found: gone\n";
      written = none;
    })
main-refuses_test =
    main-refuses thousandths ratio formats dumps files (compare_with (codes "gone"))
      (not_found (codes "gone")) (with_mrr 800) none refl (inr (reads_800, misses_a_file))
