-- ===== src/Lib.antt =====
-- direktiv: a workflow engine. A workflow (pkg/model) is a YAML document of states; the engine
-- (pkg/direktiv) runs its instances, one state after the other, on whichever server holds the lock
-- of the instance.
--
-- The parts, and the files that model them.
--
-- - Base: shared helpers: Boolean tests, lists, maps as association lists (`Dict`), and `Result`,
--   which is Go's pair of a value and an error, with a third case for a panic.
-- - Model: pkg/model. Value is Go's `interface{}` after decoding. Enums, StateType and StartType
--   are enums.go. Pattern is the three regular expressions for identifiers. Common is
--   common-structures.go and state-common.go. State has a child for each of the fifteen state
--   types (state-*.go), each with the record, `transition_map` (getTransitions), `get_transitions`
--   (GetTransitions) and `validate` (Validate). Start is start-*.go. Workflow is workflow.go:
--   `validate` and the lookups that the engine makes. Proofs stand in Workflow/Sound, Lookup,
--   Total and Collect, State/Agree, Transitions/Agree, Enums/RoundTrip.
-- - Engine: pkg/direktiv. World is the state: the database record of the instance, the instance in
--   memory (`workflowLogicInstance` of wli.go), the engine's map of cancel functions, the answers
--   of the database to the next writes, and the list of effects on the outside. A method is a
--   function `World → Outcome × World`, in a monad whose outcome is a value, an error or a panic.
--   Errors is errors.go. Jq and Instance are the methods of wli.go. Run is `runState` and what it
--   calls (engine.go). Step is `Transition` and `loadWorkflowLogicInstance` (wli.go). Retry and
--   Action are what the states with actions share: `preprocessRetry`, `generateActionInput`
--   (state-logic-action.go), `subflowInvoke` (engine.go). Logic has a child for each state type
--   whose `Run` is modelled (state-logic*.go); Branches is the code that parallel and foreach
--   states have in common, and Branches/Stored what the end of such a state stores, Logic/Events
--   that of the three states that wait for events, and Logic/Variables that of the getter and the
--   setter; Logic/GenerateEvent has the event library, `EventCodec`, as a parameter. Wake holds
--   the handlers that wake an instance or cancel it (engine.go, flow.go). Invoke is how a workflow
--   is started from outside, by a timer or by events (engine.go, db-instance.go). Transfer has the
--   handlers by which containers read and write variables (flow.go). Correlation is events.go and
--   the tables of db-events.go: Rows has the listeners, the events that wait and the matching,
--   Handle what an event that arrives does to them, Register the listener of a workflow;
--   `Correlator` is a parameter with the glob matcher, the hash, the printer of values, Go's lower
--   case and the order in which a range visits a map. Timers is timer.go, the timers of one
--   server.
-- - Jqer: pkg/jqer/jqer.go. Outcomes has its settings, the gojq library as a parameter, and the
--   outcomes of its calls; Strings is what it uses of Go's packages strings and sort. Jqer itself
--   is `Evaluate` and its recursions. Total proves that they end, and Template says what a text
--   with queries in it evaluates to.
-- - Varstore: pkg/varstore/postgres.go, the table of variables. Varstore/Like is SQL's LIKE;
--   Refines compares the table with a map, and Deletes is about the deletion of scopes.
-- - Secrets: pkg/secrets/handler/db.go, the secrets of namespaces; `Cipher` is AES-GCM with its
--   key and the random source, as a parameter.
--
-- How they interact. `Step.transition` looks the next state up in the workflow, writes the record
-- and calls `Run.run_state`, which runs the state's `StateLogic` and either starts the next
-- transition (the effect `went_on`), ends the instance, or closes it to wait. An instance that
-- waits is loaded again by `Step.load` when its timer, its action, its child or its events report;
-- Correlation finds the events. Model validates what the engine relies on: Engine/Step/Loads joins
-- the two.
--
-- What is outside. `Services` is a parameter: the regular expression matcher, the gojq library
-- (the engine evaluates its queries by Jqer's `evaluate` with it), the JSON schema validator, the
-- duration parser, floating-point scaling, the clock, fresh identifiers, base64, the size of JSON
-- texts, the answers of the secrets service, the service hash and the stored workflows. `Parsers`
-- is the duration and JSON schema readers of validation. `Init` is the engine's table of state
-- logics in Step. No law of them is assumed except as a hypothesis of a theorem.
--
-- Fuel and bounds. All loops are over lists, but two. The search of a text for queries (Jqer) has
-- as fuel one more than the text has characters, which is enough if the opening mark is not empty
-- (Jqer/Total; with an empty one Go's loop does not end); the loop that sends chunks has two more
-- than there are bytes (Transfer/Chunks). Go's int counters are native numbers without
-- wrap-around; none of them grows past the number of steps or attempts. Times are nanoseconds.
--
-- Not modelled. Log lines; decoding of YAML and JSON (a workflow and a record are given decoded,
-- and saved bytes are data with a case for bytes that no decoder accepts); the database itself,
-- beyond the tables of variables, secrets, instances and listeners and whether a call of it fails;
-- goroutine interleavings, since the lock of an instance serialises its steps; the messages
-- between servers (sync.go); the gRPC and HTTP servers around the engine; Kubernetes.

pub mod Base
pub mod Jqer
pub mod Varstore
pub mod Secrets
pub mod Model
pub mod Engine
