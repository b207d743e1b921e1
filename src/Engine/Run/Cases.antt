-- ===== src/Engine/Run/Cases.antt =====
-- How an instance ends by an error: what is stored, and what is let go.
use direktiv.Base.{
  String, str_eq, is_empty, ◌≡◌, ◌∙◌, refl, inl, inr, true, false, List, [], ◌∷◌, ◌++◌, Option,
  none, some, arith, if◌then◌else◌, Bool-cases, lookup, delete, lookup-delete, str_eq_self,
}
use direktiv.Model.Value.{Value, null}
use direktiv.Engine.Instance.{
  complete_state, free_resources, close, unlock, wake_caller, set_status, update_or_panic,
  with_error, err_code_internal,
}
use direktiv.Engine.World.{
  World, Outcome, returned, failed, panicked, pass, the_record, ◌>>=◌, M, Record, Memory, memory,
  corrupt, Effect, freed, published, reported, answer_of, Output, json, InvokedBy, nobody, garbled,
  caller,
}
use direktiv.Engine.Run.{
  StateLogic, StateChild, finish, fail_instance, cancel_saved, cancel_memory, cancel_children,
  cancel_each, cancel_child, is_nothing,
}

-- An instance that holds its lock, with its record at hand and its cancel function in the map.
pub record Running (w : World) (r : Record) : Type 0 where
  pub stored : w.instance.rec ≡ some r
  pub locked : w.instance.locked ≡ true
  pub registered : lookup w.instance.id w.cancels ≡ some tt

abbrev given : Option Value → Output
given none = json null
given (some v) = json v

-- What the caller of an instance is told: the record's error, and the output.
abbrev pub told : String → Record → Option Value → InvokedBy → List Effect
told id r output nobody = []
told id r output garbled = []
told id r output (caller c) =
    reported c (record {
      action_id = id;
      error_code = r.error_code;
      error_message = r.error_message;
      output = given output;
    })
    ∷ []

-- The outcome in which the record is `r`, the instance is unlocked and off the map, and the last
-- effects are these, in this order: the resources of the instance are freed, who waits at the API is
-- woken, and the caller, if there is one, is told.
pub record Ended (o : Outcome (Unit {0}) × World) (r : Record) (output : Option Value)
    : Type 0 where
  pub returns : o.0 ≡ returned tt
  pub stored : o.1.instance.rec ≡ some r
  pub unlocked : o.1.instance.locked ≡ false
  pub unregistered : lookup o.1.instance.id o.1.cancels ≡ none
  pub before : List Effect
  pub effects :
      o.1.effects
      ≡ told o.1.instance.id r output r.invoked_by
        ++ (published o.1.instance.id ∷ freed r.instance_id ∷ before)

lookup-delete_self : (k : String) (m : List (String × Unit {0})) → lookup k (delete k m) ≡ none
lookup-delete_self k m = rw (lookup-delete k k m, str_eq_self k)

pub finish-Ended :
    (r : Record) (output : Option Value) (w : World)
    → Running w r
    → Ended (finish r output w) r output
unfolding finish free_resources wake_caller close unlock
finish-Ended r output w h = record {
  returns = ground arith;
  stored = ground arith;
  unlocked = ground arith;
  unregistered = ground (arith, lookup-delete_self w.instance.id w.cancels);
  before = w.effects;
  effects = ground arith;
}

-- The first error of an instance is the one that is kept.
abbrev pub failed_record : Record → String → String → String → Record
failed_record r status code message =
    if is_empty r.error_code
    then record (with_error r status (if str_eq status "crashed" then err_code_internal else code)
        message) { ended = true }
    else record r { ended = true }

set_status-Running :
    (r : Record) (status code message : String) (w : World)
    → Running w r
    → answer_of w.writes ≡ none
    → ((set_status status code message w).0 ≡ returned tt)
      × Running (set_status status code message w).1 (failed_record r status code message)
unfolding set_status complete_state update_or_panic
set_status-Running r status code message w h a = (
  ground arith,
  record { stored = ground arith; locked = ground arith; registered = ground arith },
)

pub pass-returned :
    {A B : Type 0} (k : A → M B) (r : Outcome A × World) (a : A)
    → r.0 ≡ returned a
    → pass k r ≡ k a r.1
pass-returned k (returned b, w) a h = let e : b ≡ a = ground arith in rw e
pass-returned k (failed e, w) a h = absurd (ground arith)
pass-returned k (panicked, w) a h = absurd (ground arith)

pub the_record-stored :
    (w : World) (r : Record) → w.instance.rec ≡ some r → (the_record w).0 ≡ returned r
the_record-stored w r h = ground arith

pub the_record-state : (w : World) → (the_record w).1 ≡ w
the_record-state w = ground arith

pub fail_instance-Ended :
    (r : Record) (status code message : String) (w : World)
    → Running w r
    → answer_of w.writes ≡ none
    → Ended (fail_instance status code message w) (failed_record r status code message) none
unfolding fail_instance
fail_instance-Ended r status code message w h a =
    let (p, q) = set_status-Running r status code message w h a in
    let s = set_status status code message w in
    let next = λ (rec : Record). finish rec none in
    rw
      (
        pass-returned (λ _. the_record >>= next) s tt p,
        pass-returned next (the_record s.1) (failed_record r status code message)
            (the_record-stored s.1 (failed_record r status code message) q.stored),
        the_record-state s.1,
      )
      (finish-Ended (failed_record r status code message) none s.1 q)

cancel_child-effects :
    (child : StateChild) (w : World)
    → (es : List Effect) × (cancel_child child w ≡ (returned tt, record w { effects = es }))
unfolding cancel_child
cancel_child-effects child w = ((cancel_child child w).1.effects, ground arith)

cancel_each-effects :
    (children : List StateChild) (w : World)
    → (es : List Effect) × (cancel_each children w ≡ (returned tt, record w { effects = es }))
unfolding cancel_each
cancel_each-effects [] w = (w.effects, refl)
cancel_each-effects (child ∷ rest) w =
    let (es, p) = cancel_child-effects child w in
    let (es', q) = cancel_each-effects rest (record w { effects = es }) in (es', rw p q)

cancel_memory-effects :
    (logic : StateLogic) (m : Memory) (w : World)
    → (es : List Effect) × (cancel_memory logic m w ≡ (returned tt, record w { effects = es }))
unfolding cancel_memory cancel_children
cancel_memory-effects logic corrupt w = (w.effects, refl)
cancel_memory-effects logic (memory saved) w = elim (Bool-cases (is_nothing saved)) [
  | inl e ↦ (w.effects, rw e)
  | inr e ↦ let (es, p) = cancel_each-effects (logic.living_children saved) w in (es, rw e p)
]

-- Cancelling the children that an instance has saved adds effects, and changes nothing else.
pub cancel_saved-effects :
    (logic : StateLogic) (r : Record) (w : World)
    → w.instance.rec ≡ some r
    → (es : List Effect) × (cancel_saved logic w ≡ (returned tt, record w { effects = es }))
unfolding cancel_saved
cancel_saved-effects logic r w h =
    let (es, p) = cancel_memory-effects logic r.memory w in
    (
      es,
      pass-returned (λ (rec : Record). cancel_memory logic rec.memory) (the_record w) r
            (the_record-stored w r h)
          ∙ rw (the_record-state w) p,
    )
