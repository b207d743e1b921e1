-- ===== src/Model/Common.antt =====
-- pkg/model/common-structures.go and state-common.go: the parts that states and workflows share,
-- and their `Validate` methods.
use direktiv.Base.{
  ℕ, zero, String, str_eq, is_empty, Bool, true, false, not, ◌&&◌, ◌||◌, List, [], Option, none,
  some, Error, new, within, at, Result, ok, err, ◌>>◌, refuse, wrap, for_each,
}
use direktiv.Model.Value.{ℤ, pos, Value, null, text}
use direktiv.Model.Pattern.{match_string, function_name_regex}

-- The packages outside the repository that validation calls: `duration.ParseISO8601` of
-- github.com/senseyeio/duration, and the JSON schema reader of github.com/qri-io/jsonschema behind
-- `isJSONSchema`, whose error is `none` for a schema.
pub record Parsers : Type 0 where
  pub is_iso8601 : String → Bool
  pub json_schema_error : Value → Option Error

-- A nil `interface{}`.
abbrev pub is_nil : Value → Bool
is_nil null = true
is_nil _ = false

-- `o.Condition == ""` at an `interface{}`: true of the empty text alone.
abbrev pub is_empty_text : Value → Bool
is_empty_text (text s) = is_empty s
is_empty_text _ = false

pub record RetryDefinition : Type 0 where
  pub max_attempts : ℤ
  pub delay : String
  pub multiplier : Value
  pub codes : List String

pub record ErrorDefinition : Type 0 where
  pub error : String
  pub transition : String

pub record ConsumeEventDefinition : Type 0 where
  pub type : String
  pub context : List (String × Value)

pub record ActionDefinition : Type 0 where
  pub function : String
  pub workflow : String
  pub input : Value
  pub secrets : List String
  pub retries : Option RetryDefinition

pub record FunctionFileDefinition : Type 0 where
  pub key : String
  pub as_name : String
  pub scope : String
  pub type : String

pub record FunctionDefinition : Type 0 where
  pub id : String
  pub image : String
  pub size : ℕ
  pub cmd : String
  pub scale : ℤ
  pub files : List FunctionFileDefinition

pub record SchemaDefinition : Type 0 where
  pub id : String
  pub schema : Value

pub record TimeoutDefinition : Type 0 where
  pub interrupt : String
  pub kill : String

pub record StateCommon : Type 0 where
  pub id : String
  pub type : ℕ
  pub log : Value
  pub catch : List ErrorDefinition

-- `validateTransformJQ`: its checks are commented out in the source.
unfoldable pub validate_transform_jq : String → Result (Unit {0})
validate_transform_jq transform = ok tt

-- `if s, ok := x.(string); ok { … validateTransformJQ(s) … }`.
unfoldable pub validate_transform : Value → Result (Unit {0})
unfolding validate_transform_jq
validate_transform (text s) = validate_transform_jq s
validate_transform _ = ok tt

unfoldable pub validate_error_definition : ErrorDefinition → Result (Unit {0})
validate_error_definition o = refuse (is_empty o.error) (new "error required")

unfoldable pub validate_consume_event : ConsumeEventDefinition → Result (Unit {0})
validate_consume_event o = refuse (is_empty o.type) (new "type required")

-- `for _, catch := range o.Catch` of `commonValidate`, which returns the error as it is.
unfoldable pub common_validate : StateCommon → Result (Unit {0})
unfolding validate_error_definition
common_validate o = do
  refuse (is_empty o.id) (new "id required")
  for_each (λ i catch. validate_error_definition catch) 0 o.catch

-- The loop over `ErrorDefinitions()` at the end of most `Validate` methods.
unfoldable pub validate_catches : List ErrorDefinition → Result (Unit {0})
unfolding validate_error_definition
validate_catches catches =
    for_each (λ i definition. wrap (at "catch is invalid" i) (validate_error_definition definition))
      0 catches

abbrev pub is_scope : String → Bool
is_scope s = is_empty s || (str_eq s "namespace" || (str_eq s "workflow" || str_eq s "instance"))

abbrev pub is_file_type : String → Bool
is_file_type s =
    is_empty s || (str_eq s "plain" || (str_eq s "base64" || (str_eq s "tar" || str_eq s "tar.gz")))

unfoldable pub validate_file : FunctionFileDefinition → Result (Unit {0})
validate_file o = do
  refuse (is_empty o.key) (new "key required")
  refuse (not (is_scope o.scope)) (new "bad scope")
  refuse (not (is_file_type o.type)) (new "bad type")

unfoldable pub validate_function : FunctionDefinition → Result (Unit {0})
validate_function o = do
  refuse (is_empty o.id) (new "id required")
  refuse (not (match_string function_name_regex o.id)) (new "function id must match regex")
  refuse (is_empty o.image) (new "image required")
  for_each (λ i f. wrap (at "function file" i) (validate_file f)) 0 o.files

abbrev pub is_zero : ℤ → Bool
is_zero (pos zero) = true
is_zero _ = false

-- `p == nil`.
abbrev pub is_nil_pointer : {A : Type 0} → Option A → Bool
is_nil_pointer none = true
is_nil_pointer (some a) = false

-- `len(xs) == 0`, which is also true of nil.
abbrev pub is_empty_list : {A : Type 0} → List A → Bool
is_empty_list [] = true
is_empty_list _ = false

module _ (parsers : Parsers) where
  open parsers use {is_iso8601, json_schema_error}

  -- `o.Timeout != "" && !isISO8601(o.Timeout)`.
  abbrev pub is_bad_duration : String → Bool
  is_bad_duration s = not (is_empty s) && not (is_iso8601 s)

  -- A nil `*TimeoutDefinition` is valid.
  unfoldable pub validate_timeout : Option TimeoutDefinition → Result (Unit {0})
  validate_timeout none = ok tt
  validate_timeout (some o) = do
    refuse (is_bad_duration o.interrupt) (new "interrupt is not a ISO8601 string")
    refuse (is_bad_duration o.kill) (new "kill is not a ISO8601 string")

  unfoldable pub is_json_schema : Value → Result (Unit {0})
  is_json_schema schema = elim (json_schema_error schema) [ none ↦ ok tt | some e ↦ err e ]

  unfoldable pub validate_schema : SchemaDefinition → Result (Unit {0})
  unfolding is_json_schema
  validate_schema o = do
    refuse (is_empty o.id) (new "id required")
    wrap (within "invalid schema") (is_json_schema o.schema)

  unfoldable pub validate_retry : Option RetryDefinition → Result (Unit {0})
  validate_retry none = ok tt
  validate_retry (some o) = do
    refuse (is_zero o.max_attempts) (new "maxAttempts required to be more than 0")
    refuse (is_bad_duration o.delay) (new "delay is not a ISO8601 string")
    refuse (is_empty_list o.codes) (new "retry policy requires at least one defined code")

  unfoldable pub validate_action : ActionDefinition → Result (Unit {0})
  unfolding validate_retry
  validate_action o = do
    refuse (not (is_empty o.function) && not (is_empty o.workflow))
        (new "function and workflow cannot coexist")
    refuse (is_empty o.function && is_empty o.workflow)
        (new "must define atleast one function or workflow")
    validate_retry o.retries
