-- ===== src/Eval/Compare/Main.antt =====
-- The command of the comparison (packages/eval/src/anime_eval/compare.py, `main`), after `argparse`.
-- What a run does to its surroundings is in the value that it gives; the writes themselves succeed.
pub mod Exit
mod Tests
use anime_recommendation_eng.Base.{
  ℕ, Bool, true, false, ◌||◌, Option, none, some, List, [], ◌∷◌, ◌++◌, if◌then◌else◌,
}
use anime_recommendation_eng.Base.Action.{
  Kind, Exc, Outcome, ok, raised, cancelled, value_error, file_not_found,
}
use anime_recommendation_eng.Base.Float.{FloatOps}
use anime_recommendation_eng.Base.Text.{Text, codes}
use anime_recommendation_eng.Eval.Report.{Files}
use anime_recommendation_eng.Eval.Compare.{Ratio, ComparisonResult, is_ok, compare_reports}
use anime_recommendation_eng.Eval.Compare.Json.{Json, to_dict}
use anime_recommendation_eng.Eval.Compare.Render.{Formats, render_markdown, render_text}

pub data Format : Type 0 where
  markdown json text : Format

pub record Args (F : Type 0) : Type 0 where
  pub baseline : Text
  pub candidate : Text
  pub threshold : F
  pub floor : F
  pub min_lift : F
  pub format : Format
  pub output : Option Text

-- The exit code, what goes to the two streams, and the file that is written with its contents.
pub record Ran : Type 0 where
  pub exit : ℕ
  pub stdout : Text
  pub stderr : Text
  pub written : Option (Text × Text)

-- The classes of the two `except` clauses.
abbrev pub is_usage_error : Kind → Bool
is_usage_error file_not_found = true
is_usage_error value_error = true
is_usage_error _ = false

-- The payload goes to the file that is named, or else to the standard output.
abbrev pub to_stdout : Option Text → Text → Text
to_stdout none payload = payload
to_stdout (some path) payload = []

abbrev pub to_file : Option Text → Text → Option (Text × Text)
to_file none payload = none
to_file (some path) payload = some (path, payload)

abbrev pub code_of : Bool → ℕ
code_of fine = if fine then 0 else 1

module _ (f : FloatOps) (g : Ratio f) (s : Formats f.F) (dumps : Json f.F → Text) where
  abbrev pub rendered : Format → ComparisonResult f.F → Text
  rendered json r = dumps (to_dict f g r) ++ codes "\n"
  rendered markdown r = render_markdown f g s r
  rendered text r = render_text f g s r

  abbrev pub exit_code : ComparisonResult f.F → ℕ
  exit_code r = code_of (is_ok f g r)

  abbrev pub put_out : Option Text → Text → ℕ → Ran
  put_out output payload code = record {
    exit = code;
    stdout = to_stdout output payload;
    stderr = [];
    written = to_file output payload;
  }

  abbrev pub refused : Exc → Outcome Ran
  refused e =
      if is_usage_error e.kind
      then ok (record {
        exit = 2;
        stdout = [];
        stderr = codes "error: " ++ (e.message ++ codes "\n");
        written = none;
      })
      else raised e

  abbrev pub finish : Args f.F → Outcome (ComparisonResult f.F) → Outcome Ran
  finish args (ok r) = ok (put_out args.output (rendered args.format r) (exit_code r))
  finish args (raised e) = refused e
  finish args cancelled = cancelled

  -- `main`
  unfoldable pub main : Files f.F → Args f.F → Outcome Ran
  unfolding compare_reports to_dict render_markdown render_text
  main files args = finish args (
      compare_reports f g files args.baseline args.candidate args.threshold args.floor
        args.min_lift)
