-- ===== src/Engine/Logic/Variables/SetGet.antt =====
-- A variable that a setter state sets is what a getter state gets.
use direktiv.Base.{String, ◌≡◌, refl, ap, ◌∙◌, List, [], ◌∷◌, none, some}
use direktiv.Model.Value.{Value, object, Fields, end, field}
use direktiv.Model.State.Getter.{GetterState, GetterDefinition}
use direktiv.Model.State.Setter.{SetterState, SetterDefinition}
use direktiv.Varstore.{retrieve, store}
use direktiv.Varstore.Refines.{retrieve-store_self}
use direktiv.Jqer.Outcomes.{answer}
use direktiv.Engine.Services.{Services}
use direktiv.Engine.Jq.{evaluate_in, jq_one, jq, only, evaluated}
use direktiv.Engine.Instance.{store_data, set_field}
use direktiv.Engine.World.{
  World, Instance, Record, json, returned, nothing, no_wake, answer_of, answers_after, pass,
  or_crash, ◌>>=◌, ◌>>◌,
}
use direktiv.Engine.Logic.Noop.{go_to, refuse_savedata, refuse_wakedata}
use direktiv.Engine.Logic.Events.Stores.{with_data, store_data-object}
use direktiv.Engine.Logic.Variables.{decoded, reread, scope_of, read_variable, write_variable}
use direktiv.Engine.Logic.Variables.Getter
use direktiv.Engine.Logic.Variables.Setter

-- The world with the value in the variable.
abbrev pub with_variable : Services → Instance → Record → SetterDefinition → Value → World → World
with_variable services i r d x w = record w {
  writes = answers_after w.writes;
  variables = store d.key (scope_of i r d.scope) (services.json_size x) (some (json x)) w.variables;
}

pub jq_one-gives :
    (services : Services) (input command x : Value) (w : World)
    → evaluate_in services input command ≡ answer (x ∷ [])
    → jq_one services input command w ≡ (returned x, w)
unfolding jq_one jq only
jq_one-gives services input command x w e = ap (λ out. pass only (evaluated out w)) e

write_variable-stores :
    (services : Services) (key : String) (scope : List String) (x : Value) (w : World)
    → answer_of w.writes ≡ none
    → write_variable services key scope x w ≡ (
      returned tt,
      record w {
        writes = answers_after w.writes;
        variables = store key scope (services.json_size x) (some (json x)) w.variables;
      },
    )
unfolding write_variable
write_variable-stores services key scope x w a = rw (a, write_variable) refl

-- A setter state with one variable sets it, and goes on.
setter-sets :
    (services : Services) (o : SetterState) (d : SetterDefinition) (x : Value) (r : Record)
    (w : World)
    → o.variables ≡ d ∷ []
    → w.instance.rec ≡ some r
    → answer_of w.writes ≡ none
    → evaluate_in services w.instance.state_data d.value ≡ answer (x ∷ [])
    → (Setter.logic services o).run nothing no_wake w ≡ (
      returned (some (record { next_state = o.transition; transform = o.transform })),
      with_variable services w.instance r d x w,
    )
unfolding Setter.logic Setter.run Setter.set_variables refuse_savedata refuse_wakedata
setter-sets services o d x r w only_one h a e =
    let go = λ (_ : Unit {0}). go_to o.transform o.transition in
    let set = λ (y : Value).
      write_variable services d.key (scope_of w.instance r d.scope) y
      >> Setter.set_variables services w.instance r [] in
    ap
      (λ q.
        pass
          (λ rec.
            Setter.set_variables services w.instance rec o.variables
            >> go_to o.transform o.transition)
          (or_crash q w))
      h
    ∙ ap (λ vs. pass go (Setter.set_variables services w.instance r vs w)) only_one
    ∙ ap (λ z. pass go (pass set z)) (jq_one-gives services w.instance.state_data d.value x w e)
    ∙ ap (λ z. pass go (pass (λ _. Setter.set_variables services w.instance r []) z))
        (write_variable-stores services d.key (scope_of w.instance r d.scope) x w a)

read_variable-reads :
    (key : String) (scope : List String) (w : World)
    → answer_of w.writes ≡ none
    → read_variable key scope w ≡ (
      returned (decoded (retrieve key scope w.variables).1),
      record w { writes = answers_after w.writes },
    )
unfolding read_variable
read_variable-reads key scope w a = rw (a, read_variable) refl

-- A getter state with one variable adds it to the state data, and goes on.
getter-gets :
    (services : Services) (o : GetterState) (d : GetterDefinition) (r : Record) (m : Fields)
    (v : World)
    → o.variables ≡ d ∷ []
    → v.instance.rec ≡ some r
    → answer_of v.writes ≡ none
    → v.instance.state_data ≡ object m
    → (Getter.logic services o).run nothing no_wake v ≡ (
      returned (some (record { next_state = o.transition; transform = o.transform })),
      with_data
          (set_field "var"
            (object (
              set_field d.key
                (decoded (retrieve d.key (scope_of v.instance r d.scope) v.variables).1)
                end))
            m)
          (record v { writes = answers_after v.writes }),
    )
unfolding Getter.logic Getter.run Getter.get_variables refuse_savedata refuse_wakedata
getter-gets services o d r m v only_one h a s =
    let go = λ (_ : Unit {0}). go_to o.transform o.transition in
    let put = λ (fs : Fields). store_data "var" (object fs) >> go_to o.transform o.transition in
    let got = decoded (retrieve d.key (scope_of v.instance r d.scope) v.variables).1 in
    let read = record v { writes = answers_after v.writes } in
    ap
      (λ q.
        pass (λ rec. Getter.get_variables v.instance rec o.variables end >>= put) (or_crash q v))
      h
    ∙ ap (λ vs. pass put (Getter.get_variables v.instance r vs end v)) only_one
    ∙ ap
        (λ z. pass put (pass (λ y. Getter.get_variables v.instance r [] (set_field d.key y end)) z))
        (read_variable-reads d.key (scope_of v.instance r d.scope) v a)
    ∙ ap (pass go) (store_data-object "var" (object (set_field d.key got end)) m read s)

-- A setter state with one variable, whose value the query gives as `x`, goes on to its target. A
-- getter state that reads one variable of the same key, in a scope that is the same list of names,
-- then finds what JSON's decoder makes of the text of `x`, where whole numbers are floating-point
-- numbers: in any instance, at any time at which the table of variables is as the setter left
-- it, if the state data of the instance is an object and the database answers, the getter stores the
-- object with this one variable as the field "var", changes nothing else, and goes to its target.
pub set-get :
    (services : Services) (o : SetterState) (d : SetterDefinition) (x : Value) (r : Record)
    (p : GetterState) (g : GetterDefinition) (s : Record) (m : Fields) (w v : World)
    → o.variables ≡ d ∷ []
    → w.instance.rec ≡ some r
    → answer_of w.writes ≡ none
    → evaluate_in services w.instance.state_data d.value ≡ answer (x ∷ [])
    → p.variables ≡ g ∷ []
    → v.instance.rec ≡ some s
    → answer_of v.writes ≡ none
    → v.instance.state_data ≡ object m
    → v.variables ≡ ((Setter.logic services o).run nothing no_wake w).1.variables
    → g.key ≡ d.key
    → scope_of v.instance s g.scope ≡ scope_of w.instance r d.scope
    → (((Setter.logic services o).run nothing no_wake w).0
        ≡ returned (some (record { next_state = o.transition; transform = o.transform })))
      × ((Getter.logic services p).run nothing no_wake v ≡ (
        returned (some (record { next_state = p.transition; transform = p.transform })),
        with_data
            (set_field "var" (object (field g.key (reread x) end)) m)
            (record v { writes = answers_after v.writes }),
      ))
unfolding set_field decoded
set-get services o d x r p g s m w v only_d hw aw e only_g hv av ob same key scope =
    let set = setter-sets services o d x r w only_d hw aw e in
    let after =
      store d.key (scope_of w.instance r d.scope) (services.json_size x) (some (json x))
        w.variables in
    let rows : v.variables ≡ after = same ∙ ap (λ z. z.1.variables) set in
    let found : decoded (retrieve g.key (scope_of v.instance s g.scope) v.variables).1 ≡ reread x =
      ap (λ k. decoded (retrieve k (scope_of v.instance s g.scope) v.variables).1) key
      ∙ ap (λ z. decoded (retrieve d.key z v.variables).1) scope
      ∙ ap (λ z. decoded (retrieve d.key (scope_of w.instance r d.scope) z).1) rows
      ∙ ap (λ z. decoded z.1)
          (retrieve-store_self d.key (scope_of w.instance r d.scope) (services.json_size x)
            (some (json x)) w.variables) in
    (
      ap (λ z. z.0) set,
      getter-gets services p g s m v only_g hv av ob
          ∙ ap
              (λ y. (
                returned (some (record { next_state = p.transition; transform = p.transform })),
                with_data (set_field "var" (object (field g.key y end)) m)
                    (record v { writes = answers_after v.writes }),
              ))
              found,
    )
