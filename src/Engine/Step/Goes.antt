-- ===== src/Engine/Step/Goes.antt =====
-- What `Transition` does when the next state can be found.
use direktiv.Base.{
  if◌then◌else◌, length-append, ℕ, suc, ◌==◌, ◌≡◌, refl, ◌∙◌, ap, ◌≢◌, String, is_empty, true, List,
  [], ◌∷◌, ◌++◌, none, some, length, arith,
}
use direktiv.Engine.Services.{Services}
use direktiv.Engine.Instance.{close}
use direktiv.Engine.World.{
  crash, World, Record, nothing, no_wake, Effect, scheduled_timeout, answer_of, answers_after, pass,
}
use direktiv.Engine.Run.{StateLogic, run_state}
use direktiv.Engine.Step.{
  Init, find_logic, instance_deadlines, moved, enter, enter_state, step_to, transition,
  timeout_name,
}
use direktiv.Engine.Step.Timeouts.{
  schedule_timeout-effects, timed, is_empty_ne, the_record-eq, transition-steps, length-eq,
}

-- The instance as it enters a state: one step further, with the record of that state.
abbrev pub entered : World → Record → List Effect → World
entered w r es = record w {
  instance = record w.instance { step = suc w.instance.step; rec = some r };
  writes = answers_after w.writes;
  effects = es;
}

enter_state-runs :
    (services : Services) (init : Init) (next : String) (attempt : ℕ) (logic : StateLogic)
    (r : Record) (w : World)
    → w.instance.rec ≡ some r
    → find_logic init w.instance.wf next ≡ some logic
    → answer_of w.writes ≡ none
    → (rest : List Effect) × (enter_state services init next attempt w
        ≡ run_state services logic nothing no_wake none (
            entered w (moved services r next attempt w.instance.state_data logic.deadline) (
              scheduled_timeout true
                (timeout_name (suc w.instance.step))
                (suc w.instance.step)
                logic.deadline
              ∷ rest)))
unfolding enter_state enter
enter_state-runs services init next attempt logic r w h found a =
    let r' = moved services r next attempt w.instance.state_data logic.deadline in
    let (rest, p) = schedule_timeout-effects true logic.deadline (entered w r' w.effects) in
    (rest, rw (h, found, a) (ap (pass (λ _. run_state services logic nothing no_wake none)) p))

step_to-runs :
    (services : Services) (init : Init) (next : String) (attempt : ℕ) (logic : StateLogic)
    (r : Record) (w : World)
    → w.instance.rec ≡ some r
    → length r.flow ≡ w.instance.step
    → next ≢ ""
    → find_logic init w.instance.wf next ≡ some logic
    → answer_of w.writes ≡ none
    → (rest : List Effect) × (step_to services init next attempt w
        ≡ run_state services logic nothing no_wake none (
            entered w (moved services r next attempt w.instance.state_data logic.deadline) (
              scheduled_timeout true
                (timeout_name (suc w.instance.step))
                (suc w.instance.step)
                logic.deadline
              ∷ rest)))
unfolding step_to
step_to-runs services init next attempt logic r w h n ne found a =
    let (rest, p) = enter_state-runs services init next attempt logic r w h found a in
    let k = λ (rec : Record).
      if length rec.flow == w.instance.step
      then (if is_empty next then crash else enter_state services init next attempt)
      else close in
    (
      rest,
      ap (pass k) (the_record-eq w r h)
          ∙ rw (length-eq (length r.flow) w.instance.step n, is_empty_ne next ne) p,
    )

-- A transition of an instance that is in step, to a named state that the engine has a logic for,
-- runs that state, if the timeouts of the workflow can be read and the database answers. The state
-- starts with nothing saved and no wake data, one step further, after its timeout is set. Its name
-- is the last of the record's flow, so that the instance is in step again, and the record holds the
-- state data and the deadline. The memory of the state before is not cleared.
pub transition-enters :
    (services : Services) (init : Init) (next : String) (attempt : ℕ) (logic : StateLogic)
    (r : Record) (w : World)
    → w.instance.rec ≡ some r
    → length r.flow ≡ w.instance.step
    → next ≢ ""
    → instance_deadlines services w.instance.wf.timeouts ≢ none
    → find_logic init w.instance.wf next ≡ some logic
    → answer_of w.writes ≡ none
    → (r' : Record) × (rest : List Effect) × (transition services init next attempt w
        ≡ run_state services logic nothing no_wake none (
            entered w r' (
              scheduled_timeout true
                (timeout_name (suc w.instance.step))
                (suc w.instance.step)
                logic.deadline
              ∷ rest)))
      × (r'.flow ≡ r.flow ++ (next ∷ []))
      × (length r'.flow ≡ suc w.instance.step)
      × (r'.state_data ≡ w.instance.state_data)
      × (r'.deadline ≡ logic.deadline)
      × (r'.status ≡ r.status)
      × (r'.memory ≡ r.memory)
transition-enters services init next attempt logic r w h n ne d found a =
    let (es, p) = transition-steps services init next attempt w r h d in
    let (rest, q) = step_to-runs services init next attempt logic r (timed w es) h n ne found a in
    (
      moved services r next attempt w.instance.state_data logic.deadline,
      rest,
      p ∙ q,
      refl,
      rw (length-append r.flow (next ∷ [])) (omega (arith, n)),
      refl,
      refl,
      refl,
      refl,
    )
