-- ===== src/Engine/Jq.antt =====
-- `jq`, `jqOne` and `jqObject` of pkg/direktiv/wli.go.
use direktiv.Base.{String, List, [], ◌∷◌}
use direktiv.Model.Value.{Value, object, Fields}
use direktiv.Engine.Errors.{catchable}
use direktiv.Jqer.{evaluate}
use direktiv.Jqer.Outcomes.{engine_settings, Answer, answer, fault, panics, unfinished}
use direktiv.Engine.World.{crash, M, done, fail, ◌>>=◌}
use direktiv.Engine.Services.{Services}

abbrev pub err_code_jq_bad_query : String
err_code_jq_bad_query = "direktiv.jq.badCommand"

abbrev pub err_code_jq_not_object : String
err_code_jq_not_object = "direktiv.jq.notObject"

-- What the engine makes of the outcome of `jqer.Evaluate`, of which a panic goes through. It is
-- never unfinished.
abbrev pub evaluated : Answer (List Value) → M (List Value)
evaluated (answer out) = done out
evaluated (fault e) = fail (catchable err_code_jq_bad_query "failed to evaluate jq")
evaluated panics = crash
evaluated unfinished = crash

unfoldable pub only : List Value → M Value
only (x ∷ []) = done x
only _ = fail (catchable err_code_jq_not_object "the `jq` command produced multiple outputs")

unfoldable pub as_object : Value → M Fields
as_object (object m) = done m
as_object _ =
    fail (catchable err_code_jq_not_object "the `jq` command produced a non-object output")

-- `jqer.Evaluate` at the settings of the engine.
abbrev pub evaluate_in : Services → Value → Value → Answer (List Value)
evaluate_in services = evaluate engine_settings services.gojq

module _ (services : Services) where
  unfoldable pub jq : Value → Value → M (List Value)
  jq input command = evaluated (evaluate_in services input command)

  unfoldable pub jq_one : Value → Value → M Value
  unfolding jq only
  jq_one input command = do output ← jq input command; only output

  unfoldable pub jq_object : Value → Value → M Fields
  unfolding jq_one as_object
  jq_object input command = do x ← jq_one input command; as_object x
