-- ===== src/Engine/Logic/Events/Once.antt =====
-- A state that waits for events registers one listener, or none where it fails.
use direktiv.Engine.Errors.{Failure}
use direktiv.Base.{
  String, ◌≡◌, refl, ap, sym, ◌∙◌, subst, Bool, true, false, List, [], ◌∷◌, Option, none, some, inl,
  inr, ◌⊎◌, map, Option-cases,
}
use direktiv.Model.Value.{Value}
use direktiv.Model.Common.{ConsumeEventDefinition}
use direktiv.Model.State.Consume.{ConsumeEventState}
use direktiv.Model.State.EventsAnd.{EventsAndState}
use direktiv.Model.State.EventsXor.{EventsXorState}
use direktiv.Engine.Services.{Services}
use direktiv.Engine.World.{
  or_crash, emit, fail, answers_after, ◌>>◌, World, Instance, M, Outcome, returned, failed,
  panicked, Effect, cleared_listeners, listened, pass, ◌>>=◌, no_wake, nothing, Record, write,
  the_record, done, answer_of,
}
use direktiv.Engine.Run.{StateTransition}
use direktiv.Engine.Logic.Events.{
  register, clear_event_listeners, add_listener, listen_for_events, listen, prepare_events,
  transform_events,
}
use direktiv.Engine.Logic.Events.Consume
use direktiv.Engine.Logic.Events.EventsAnd
use direktiv.Engine.Logic.Events.EventsXor
use direktiv.Engine.Logic.Noop.{refuse_savedata}
use direktiv.Engine.Logic.Events.Listens.{
  Reads, SameTypes, prepare_events-Reads, transform_events-Reads,
}

-- What the deletion of the listeners of the instance `id` adds, by the answer of the database.
abbrev pub deletion : String → Option Failure → List Effect → List Effect
deletion id none es = cleared_listeners id ∷ es
deletion id (some e) es = es

-- The effects since the world `w`: the deletion of the listeners of its own instance, if its
-- database answers, and nothing else.
abbrev pub Cleared : World → List Effect → Type 0
Cleared w es =
    (r : Record) × (w.instance.rec ≡ some r)
    × (es ≡ deletion r.instance_id (answer_of w.writes) w.effects)

-- Nothing has been done yet, or the deletion has.
abbrev pub Stopped : World → List Effect → Type 0
Stopped w es = (es ≡ w.effects) ⊎ Cleared w es

-- The call registers one listener, for the instance at its step and with the types of the
-- definitions, after it has deleted older ones; where it fails it registers none.
abbrev pub Registers :
    {A : Type 0} → World → List ConsumeEventDefinition → Bool → Outcome A × World → Type 0
Registers w definitions all (returned a, w') =
    (events : List ConsumeEventDefinition) × (rest : List Effect) × SameTypes definitions events
    × (w'.effects ≡ listened events all w.instance.id w.instance.step ∷ rest)
    × Cleared w rest
Registers w definitions all (failed e, w') = Stopped w w'.effects
Registers w definitions all (panicked, w') = Unit {0}

-- The instance is the one of the world `w`, and only listeners were deleted since.
record Since (w now : World) : Type 0 where
  same_instance : now.instance ≡ w.instance
  cleared : Cleared w now.effects

add_listener-Registers :
    (definitions events : List ConsumeEventDefinition) (all : Bool) (w now : World)
    → Since w now
    → SameTypes definitions events
    → Registers w definitions all (add_listener events all now)
unfolding add_listener
add_listener-Registers definitions events all w now h same =
    elim (Option-cases (answer_of now.writes)) [
      | inl e ↦
          rw (e, Registers)
            (
              events,
              now.effects,
              same,
              ap (λ (i : Instance). listened events all i.id i.step ∷ now.effects) h.same_instance,
              h.cleared,
            )
      | inr (why, e) ↦ rw (e, Registers) (inr h.cleared)
    ]

-- A call that only reads, and what follows it.
Reads-Registers :
    {A B : Type 0} (P : A → Type 0) (k : A → M B) (definitions : List ConsumeEventDefinition)
    (all : Bool) (w now : World) (o : Outcome A × World)
    → Reads P now o
    → Stopped w now.effects
    → ((a : A) → P a → Registers w definitions all (k a now))
    → Registers w definitions all (pass k o)
Reads-Registers P k definitions all w now (returned a, w') (p, e) c f = rw e (f a p)
Reads-Registers P k definitions all w now (failed why, w') e c f = rw e c
Reads-Registers P k definitions all w now (panicked, w') e c f = tt

SameTypes-trans :
    (ds es fs : List ConsumeEventDefinition) → SameTypes ds es → SameTypes es fs → SameTypes ds fs
SameTypes-trans ds es fs p q = q ∙ p

the_record-Reads : (w : World) → Reads (λ r. w.instance.rec ≡ some r) w (the_record w)
the_record-Reads w = by_pointer w.instance.rec
  where
    by_pointer : (o : Option Record) → Reads (λ r. o ≡ some r) w (or_crash o w)
    by_pointer none = refl
    by_pointer (some r) = (refl, refl)

-- What follows the read of the record in `listenForEvents`.
abbrev listening : Services → List ConsumeEventDefinition → Bool → Value → M (Unit {0})
listening services events all input = write >>= λ answer. elim answer [
  | some e ↦ fail e
  | none ↦ transform_events services input 0 events >>= λ transformed. add_listener transformed all
]

listen_for_events-Registers :
    (services : Services) (definitions events : List ConsumeEventDefinition) (all : Bool)
    (w now : World)
    → Since w now
    → SameTypes definitions events
    → Registers w definitions all (listen_for_events services events all now)
unfolding listen_for_events
listen_for_events-Registers services definitions events all w now h same =
    Reads-Registers (λ r. now.instance.rec ≡ some r)
      (λ (r : Record). listening services events all now.instance.state_data) definitions all w now
      (the_record now) (the_record-Reads now) (inr h.cleared)
      (λ r _. elim (Option-cases (answer_of now.writes)) [
        | inr (why, a) ↦ rw (a, Registers) (inr h.cleared)
        | inl a ↦
            let asked = record now { writes = answers_after now.writes } in
            let input = now.instance.state_data in
            rw (a, Registers)
              (Reads-Registers (SameTypes events) (λ transformed. add_listener transformed all)
                definitions all w asked (transform_events services input 0 events asked)
                (transform_events-Reads services input 0 events asked) (inr h.cleared)
                (λ transformed kept.
                  add_listener-Registers definitions transformed all w asked
                    (record { same_instance = h.same_instance; cleared = h.cleared })
                    (SameTypes-trans definitions events transformed same kept)))
      ])

abbrev clearing : Record → M (Unit {0})
clearing r = write >>= λ answer. elim answer [
  | none ↦ emit (cleared_listeners r.instance_id)
  | some e ↦ done tt
]

clear-then :
    {B : Type 0} (k : M B) (w : World)
    → (the_record >>= λ r. clearing r >> k) w ≡ (clear_event_listeners >> k) w
unfolding clear_event_listeners
clear-then k w = by_pointer w.instance.rec
  where
    by_pointer :
        (o : Option Record)
        → pass (λ r. clearing r >> k) (or_crash o w) ≡ pass (λ _. k) (pass clearing (or_crash o w))
    by_pointer none = refl
    by_pointer (some r) = refl

-- The deletion of the old listeners, whether the database makes it or not, and what follows it.
clear-Registers :
    {B : Type 0} (k : M B) (definitions : List ConsumeEventDefinition) (all : Bool) (w : World)
    → ((now : World) → Since w now → Registers w definitions all (k now))
    → Registers w definitions all ((clear_event_listeners >> k) w)
unfolding clear_event_listeners
clear-Registers k definitions all w f = subst (Registers w definitions all) (clear-then k w) (
    Reads-Registers (λ r. w.instance.rec ≡ some r) (λ (r : Record). clearing r >> k) definitions all
      w w (the_record w) (the_record-Reads w) (inl refl)
      (λ r is_r. elim (Option-cases (answer_of w.writes)) [
        | inr (why, a) ↦
            rw (a, Registers)
              (f (record w { writes = answers_after w.writes })
                (record {
                  same_instance = refl;
                  cleared = (r, is_r, ap (λ x. deletion r.instance_id x w.effects) (sym a));
                }))
        | inl a ↦
            rw (a, Registers)
              (f
                (record w {
                  writes = answers_after w.writes;
                  effects = cleared_listeners r.instance_id ∷ w.effects;
                })
                (record {
                  same_instance = refl;
                  cleared = (r, is_r, ap (λ x. deletion r.instance_id x w.effects) (sym a));
                }))
      ]))

-- The state ends without a transition, and with a listener.
abbrev pub Waits :
    World → List ConsumeEventDefinition → Bool → Outcome (Option StateTransition) × World → Type 0
Waits w definitions all (returned (some t), w') = ⊥
Waits w definitions all (returned none, w') =
    Registers {A = Unit {0}} w definitions all (returned tt, w')
Waits w definitions all (failed e, w') = Registers {A = Unit {0}} w definitions all (failed e, w')
Waits w definitions all (panicked, w') = Unit {0}

done-Waits :
    (definitions : List ConsumeEventDefinition) (all : Bool) (w : World)
    (o : Outcome (Unit {0}) × World)
    → Registers w definitions all o
    → Waits w definitions all (pass (λ _. done none) o)
done-Waits definitions all w (returned u, w') h = h
done-Waits definitions all w (failed e, w') h = h
done-Waits definitions all w (panicked, w') h = h

register-Registers :
    (services : Services) (definitions : List ConsumeEventDefinition) (all : Bool) (w : World)
    → Registers w definitions all (register services definitions all w)
unfolding register
register-Registers services definitions all w =
    Reads-Registers (SameTypes definitions)
      (λ events. clear_event_listeners >> listen_for_events services events all) definitions all w w
      (prepare_events services w.instance.state_data definitions w)
      (prepare_events-Reads services w.instance.state_data definitions w) (inl refl)
      (λ events same.
        clear-Registers (listen_for_events services events all) definitions all w (λ now since.
          listen_for_events-Registers services definitions events all w now since same))

listen-Waits :
    (services : Services) (definitions : List ConsumeEventDefinition) (all : Bool) (w : World)
    → Waits w definitions all (listen services definitions all w)
unfolding listen
listen-Waits services definitions all w =
    done-Waits definitions all w (register services definitions all w)
      (register-Registers services definitions all w)

-- A state that waits for events, of any of the three types, and that starts with nothing saved, ends
-- without a transition once it has registered one listener, for the instance at its step and for
-- the types of its definitions, all of them to come for the type eventsAnd alone. Just before, the
-- call that deletes the listener that the instance of its record had is made, and takes effect
-- unless the database answers it with an error, which is not looked at. Where the state fails
-- instead, it has registered none. The one other way out is a panic.
pub events-Waits :
    (services : Services) (consume : ConsumeEventState) (definition : ConsumeEventDefinition)
    (all_of : EventsAndState) (any_of : EventsXorState) (w : World)
    → consume.event ≡ some definition
    → Waits w (definition ∷ []) false ((Consume.logic services consume).run nothing no_wake w)
      × Waits w all_of.events true ((EventsAnd.logic services all_of).run nothing no_wake w)
      × Waits w
          (map (λ e. e.event) any_of.events)
          false
          ((EventsXor.logic services any_of).run nothing no_wake w)
unfolding Consume.logic EventsAnd.logic EventsXor.logic Consume.run EventsAnd.run EventsXor.run
    refuse_savedata
events-Waits services consume definition all_of any_of w e = (
  subst
      (λ (o : Option ConsumeEventDefinition).
        Waits w (definition ∷ []) false ((or_crash o >>= λ d. listen services (d ∷ []) false) w))
      (sym e) (listen-Waits services (definition ∷ []) false w),
  listen-Waits services all_of.events true w,
  listen-Waits services (map (λ e. e.event) any_of.events) false w,
)
