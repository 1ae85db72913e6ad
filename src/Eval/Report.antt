-- ===== src/Eval/Report.antt =====
-- The reading of an evaluation report (packages/eval/src/anime_eval/compare.py).
use anime_recommendation_eng.Base.{Option, none, some, List, [], ◌++◌}
use anime_recommendation_eng.Base.Action.{
  Exc, Outcome, ok, raised, cancelled, value_error, file_not_found,
}
use anime_recommendation_eng.Base.Text.{Text, codes}

-- A report that is a JSON object: the members that are read, `none` where a member is missing or is
-- not of its type.
pub record Report (F : Type 0) : Type 0 where
  pub metrics : Option (List (Text × F))
  pub advanced : Option (List (Text × F))
  pub naive : Option (List (Text × F))
  pub embedding_model : Option Text

-- What is at a path: nothing, or what `json.loads` makes of the text there.
abbrev pub Files : Type 0 → Type 0
Files F = Text → Option (Outcome (Report F))

abbrev pub not_found : Text → Exc
not_found path = record { kind = file_not_found; message = codes "Eval report not found: " ++ path }

abbrev pub no_metrics : Text → Exc
no_metrics path = record {
  kind = value_error;
  message = path ++ codes ": expected either {'metrics': ...} or {'advanced': ...} at top level";
}

abbrev pub bind : {A B : Type 0} → Outcome A → (A → Outcome B) → Outcome B
bind (ok a) k = k a
bind (raised e) k = raised e
bind cancelled k = cancelled

module _ {F : Type 0} where
  abbrev pub payload : Text → Option (Outcome (Report F)) → Outcome (Report F)
  payload path none = raised (not_found path)
  payload path (some report) = report

  abbrev pub metrics_of :
      Text
      → Option (List (Text × F))
      → Option (List (Text × F))
      → Option Text
      → Outcome (List (Text × F) × Option Text)
  metrics_of path (some metrics) advanced model = ok (metrics, model)
  metrics_of path none (some advanced) model = ok (advanced, model)
  metrics_of path none none model = raised (no_metrics path)

  -- `_load_metrics`
  unfoldable pub load_metrics : Files F → Text → Outcome (List (Text × F) × Option Text)
  load_metrics files path =
      bind (payload path (files path)) (λ r. metrics_of path r.metrics r.advanced r.embedding_model)

  abbrev pub or_no_entries : Option (List (Text × F)) → List (Text × F)
  or_no_entries none = []
  or_no_entries (some d) = d

  -- `_load_naive`
  unfoldable pub load_naive : Files F → Text → Outcome (List (Text × F))
  load_naive files path = bind (payload path (files path)) (λ r. ok (or_no_entries r.naive))
