-- ===== src/Model/Start.antt =====
-- pkg/model/start-*.go: what starts a workflow. Each of the five types embeds a `StartCommon`.
use direktiv.Base.{ℕ, String, List, [], ◌∷◌, Option, none, some, new, Result, ok, ◌>>◌, refuse}
use direktiv.Model.Value.{Value}
use direktiv.Model.Common.{Parsers, is_nil_pointer, is_empty_list, is_bad_duration}
use direktiv.Model.StartType

pub record StartEventDefinition : Type 0 where
  pub type : String
  pub filters : List (String × Value)

pub record StartCommon : Type 0 where
  pub type : ℕ
  pub state : String

pub data Start : Type 0 where
  default_start : StartCommon → Start
  scheduled_start : StartCommon → String → Start
  event_start : StartCommon → Option StartEventDefinition → Start
  events_xor_start : StartCommon → List StartEventDefinition → Start
  events_and_start : StartCommon → String → List String → List StartEventDefinition → Start

abbrev pub start_common : Start → StartCommon
start_common (default_start c) = c
start_common (scheduled_start c cron) = c
start_common (event_start c event) = c
start_common (events_xor_start c events) = c
start_common (events_and_start c lifespan correlate events) = c

unfoldable pub get_state : Start → String
get_state s = (start_common s).state

unfoldable pub get_type : Start → ℕ
get_type s = (start_common s).type

unfoldable pub get_events : Start → List StartEventDefinition
get_events (event_start c none) = []
get_events (event_start c (some event)) = event ∷ []
get_events (events_xor_start c events) = events
get_events (events_and_start c lifespan correlate events) = events
get_events _ = []

unfoldable pub validate : Parsers → Start → Result (Unit {0})
validate parsers (event_start c event) = refuse (is_nil_pointer event) (new "event required")
validate parsers (events_xor_start c events) = refuse (is_empty_list events) (new "events required")
validate parsers (events_and_start c lifespan correlate events) = do
  refuse (is_empty_list events) (new "events required")
  refuse (is_bad_duration parsers lifespan) (new "lifespan is not a ISO8601 string")
validate parsers _ = ok tt

-- `GetStartDefinition`: a workflow without a start has the zero `DefaultStart`.
unfoldable pub get_start_definition : Option Start → Start
get_start_definition none = default_start (record { type = StartType.default_start; state = "" })
get_start_definition (some s) = s
