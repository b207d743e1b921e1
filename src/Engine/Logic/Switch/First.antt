-- ===== src/Engine/Logic/Switch/First.antt =====
-- Which condition of a switch state decides.
use direktiv.Base.{
  append_nil, sym, if◌then◌else◌, ℕ, suc, ◌≡◌, refl, ◌∙◌, ap, Bool, true, false, List, [], ◌∷◌,
  ◌++◌, All, Option, some,
}
use direktiv.Model.Value.{Value}
use direktiv.Model.State.Switch.{SwitchState, SwitchConditionDefinition}
use direktiv.Jqer.Outcomes.{Answer, answer}
use direktiv.Engine.Services.{Services}
use direktiv.Engine.Jq.{evaluate_in, jq_one, jq, only, evaluated}
use direktiv.Engine.World.{◌>>=◌, pass, World, returned, M, nothing, no_wake}
use direktiv.Engine.Run.{StateTransition}
use direktiv.Engine.Logic.Noop.{go_to, refuse_savedata, refuse_wakedata}
use direktiv.Engine.Logic.Switch.{not_run, truth, choose, run, run_condition, logic}

-- The jq command of the condition has one output, and the test of it says `b`.
abbrev pub Says : Services → Value → Bool → SwitchConditionDefinition → Type 0
Says services input b c =
    (x : Value) × (evaluate_in services input c.condition ≡ answer (x ∷ [])) × (truth x ≡ b)

run_condition-says :
    (services : Services) (input : Value) (i : ℕ) (condition x : Value) (w : World)
    → evaluate_in services input condition ≡ answer (x ∷ [])
    → run_condition services input i condition w ≡ (returned x, w)
unfolding jq_one jq only
run_condition-says services input i condition x w h =
    ap (λ (o : Answer (List Value)). let (r, w') = (evaluated o >>= only) w in (not_run i r, w')) h

abbrev chosen :
    Services
    → SwitchState
    → Value
    → ℕ
    → SwitchConditionDefinition
    → List SwitchConditionDefinition
    → Value
    → M (Option StateTransition)
chosen services o input i c cs x =
    if truth x then go_to c.transform c.transition else choose services o input (suc i) cs

choose-skips :
    (services : Services) (o : SwitchState) (input : Value) (i : ℕ)
    (before cs : List SwitchConditionDefinition) (w : World)
    → All (Says services input false) before
    → (j : ℕ) × (choose services o input i (before ++ cs) w ≡ choose services o input j cs w)
unfolding choose
choose-skips services o input i [] cs w h = (i, refl)
choose-skips services o input i (c ∷ before) cs w ((x, e, t), h) =
    let (j, p) = choose-skips services o input (suc i) before cs w h in
    (
      j,
      ap (pass (chosen services o input i c (before ++ cs)))
            (run_condition-says services input i c.condition x w e)
          ∙ rw t p,
    )

choose-first :
    (services : Services) (o : SwitchState) (input : Value) (i : ℕ) (c : SwitchConditionDefinition)
    (cs : List SwitchConditionDefinition) (w : World)
    → Says services input true c
    → choose services o input i (c ∷ cs) w
      ≡ (returned (some (record { next_state = c.transition; transform = c.transform })), w)
unfolding choose
choose-first services o input i c cs w (x, e, t) =
    ap (pass (chosen services o input i c cs))
      (run_condition-says services input i c.condition x w e)
    ∙ rw t refl

-- A switch state goes to the target of its first condition that is true of the state data, with the
-- transform of that condition, where the conditions before it give one output that is not true. The
-- world stays as it is.
switch-first :
    (services : Services) (o : SwitchState) (before after : List SwitchConditionDefinition)
    (c : SwitchConditionDefinition) (w : World)
    → o.conditions ≡ before ++ (c ∷ after)
    → All (Says services w.instance.state_data false) before
    → Says services w.instance.state_data true c
    → (logic services o).run nothing no_wake w
      ≡ (returned (some (record { next_state = c.transition; transform = c.transform })), w)
unfolding logic run refuse_savedata refuse_wakedata
switch-first services o before after c w split h t =
    let input = w.instance.state_data in
    let (j, p) = choose-skips services o input 0 before (c ∷ after) w h in
    ap (λ cs. choose services o input 0 cs w) split
    ∙ p
    ∙ choose-first services o input j c after w t

-- Where none of the conditions is true it goes to the default target.
switch-default :
    (services : Services) (o : SwitchState) (w : World)
    → All (Says services w.instance.state_data false) o.conditions
    → (logic services o).run nothing no_wake w ≡ (
      returned
          (some (record { next_state = o.default_transition; transform = o.default_transform })),
      w,
    )
unfolding logic run refuse_savedata refuse_wakedata choose
switch-default services o w h =
    let input = w.instance.state_data in
    let (j, p) = choose-skips services o input 0 o.conditions [] w h in
    ap (λ cs. choose services o input 0 cs w) (sym (append_nil o.conditions)) ∙ p
