-- ===== src/Engine/Run/Onward.antt =====
-- A state transition of an instance that runs: it keeps its lock and its record and goes on.
use direktiv.Base.{String, ◌≡◌, refl, str_eq_ne, ◌≢◌, Bool, false, List, ◌∷◌, some, arith}
use direktiv.Model.Value.{Value}
use direktiv.Engine.Instance.{store_data, complete_state}
use direktiv.Engine.World.{World, Outcome, returned, Record, Effect, went_on, the_record, ◌>>◌}
use direktiv.Engine.Run.{StateTransition, ignore, transition_state, go_on}
use direktiv.Engine.Run.Cases.{Running, pass-returned, the_record-stored, the_record-state}

-- The error is stored in the state data, if that is an object; the record and the lock stay.
pub ignore-store_data :
    (key : String) (val : Value) (r : Record) (w : World)
    → Running w r
    → ((ignore (store_data key val) w).0 ≡ returned tt)
      × Running (ignore (store_data key val) w).1 r
      × ((ignore (store_data key val) w).1.writes ≡ w.writes)
unfolding store_data
ignore-store_data key val r w h = (
  ground arith,
  record { stored = ground arith; locked = ground arith; registered = ground arith },
  ground arith,
)

go_on-named :
    (next : String) (w : World)
    → next ≢ ""
    → go_on next w ≡ (returned tt, record w { effects = went_on next ∷ w.effects })
unfolding go_on
go_on-named next w h = rw (str_eq_ne next "" h)

-- The instance still runs, and its transition to the state `next` was started last.
abbrev pub GoesOn : Outcome (Unit {0}) × World → String → Record → Type 0
GoesOn o next r =
    (o.0 ≡ returned tt)
    × Running o.1 r
    × ((rest : List Effect) × (o.1.effects ≡ went_on next ∷ rest))

complete_state-Running :
    (r : Record) (next code : String) (retrying : Bool) (w : World)
    → Running w r
    → ((complete_state r next code retrying w).0 ≡ returned tt)
      × Running (complete_state r next code retrying w).1 r
unfolding complete_state
complete_state-Running r next code retrying w h = (
  ground arith,
  record { stored = ground arith; locked = ground arith; registered = ground arith },
)

pub transition_state-GoesOn :
    (t : StateTransition) (code : String) (r : Record) (w : World)
    → Running w r
    → t.next_state ≢ ""
    → GoesOn (transition_state (some t) code w) t.next_state r
unfolding transition_state
transition_state-GoesOn t code r w h ne =
    let (p, q) = complete_state-Running r t.next_state code false w h in
    let w' = (complete_state r t.next_state code false w).1 in
    let k = λ (rec : Record). complete_state rec t.next_state code false >> go_on t.next_state in
    rw
      (
        pass-returned k (the_record w) r (the_record-stored w r h.stored),
        the_record-state w,
        pass-returned (λ (u : Unit {0}). go_on t.next_state)
            (complete_state r t.next_state code false w) tt p,
        go_on-named t.next_state w' ne,
      )
      (
        refl,
        record { stored = q.stored; locked = q.locked; registered = q.registered },
        (w'.effects, refl),
      )
