-- ===== src/Engine/Services.antt =====
-- What pkg/direktiv takes from outside the repository, as a parameter of the model.
use direktiv.Jqer.Outcomes.{Gojq}
use direktiv.Base.{ℕ, ◌*◌, String, Bool, Option, List, Error}
use direktiv.Model.Value.{ℤ, Value}
use direktiv.Model.Workflow.{Workflow}

-- The answer of `getNamespaceWorkflow` (db-workflow.go): no such workflow, another error, or whether
-- it is active and what `Load` reads, none for text that it cannot read.
pub data StoredWorkflow : Type 0 where
  no_workflow : StoredWorkflow
  query_failed : Error → StoredWorkflow
  stored_workflow : Bool → Option Workflow → StoredWorkflow

-- The answer of `RetrieveSecret`.
pub data SecretAnswer : Type 0 where
  no_secret : SecretAnswer
  secret_failed : Error → SecretAnswer
  secret_value : String → SecretAnswer

-- Times and durations are nanoseconds, as in Go's package time.
abbrev pub seconds : ℕ → ℕ
seconds n = n * 1000000000

-- `match_string pattern s`: `regexp.MatchString`, false where the pattern does not compile.
-- `gojq`: what pkg/jqer takes from github.com/itchyny/gojq. `duration s`: `duration.ParseISO8601`
-- of github.com/senseyeio/duration, as the time by which it shifts the current time. `scale d m`:
-- the duration d times the float64 m. `fresh n`: the n-th identifier of `ksuid.New` and `randSeq`.
-- `is_ksuid`: `UnmarshalText` of ksuid accepts the text. `service_hash namespace workflow
-- function`: `serviceToHash` (kubereq.go) over github.com/mitchellh/hashstructure, none for an
-- error. `base64`: the base64 text of a text. `sprintf`: `fmt.Sprintf`. `check_schema schema
-- document`: `Validate` of github.com/xeipuuv/gojsonschema, none for an error, otherwise whether
-- the document is valid. `json_size`: the number of bytes of the JSON text of a value.
pub record Services : Type 0 where
  pub match_string : String → String → Bool
  pub gojq : Gojq
  pub duration : String → Option ℕ
  pub scale : ℤ → Value → ℤ
  pub now : ℕ
  pub hostname : String
  pub fresh : ℕ → String
  pub is_ksuid : String → Bool
  pub service_hash : String → String → String → Option String
  pub base64 : String → String
  pub secret : String → String → SecretAnswer
  pub find_workflow : String → String → StoredWorkflow
  pub sprintf : String → List Value → String
  pub check_schema : Value → Value → Option Bool
  pub json_size : Value → ℕ
