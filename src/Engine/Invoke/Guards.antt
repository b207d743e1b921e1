-- ===== src/Engine/Invoke/Guards.antt =====
-- What an invocation adds to the table of instances.
use direktiv.Base.{
  String, Bool, true, false, ◌&&◌, List, [], ◌∷◌, ◌++◌, Option, none, some, ◌≡◌, refl, ap, sym, ◌∙◌,
  ◌⊎◌, inl, inr, subst, if◌then◌else◌, ◌==◌,
}
use direktiv.Model.Value.{Value, object, end}
use direktiv.Model.Start.{Start, get_type}
use direktiv.Model.StartType
use direktiv.Model.Workflow.{Workflow}
use direktiv.Engine.Services.{Services, stored_workflow}
use direktiv.Engine.Action.{hidden, is_default_start}
use direktiv.Engine.World.{
  World, Outcome, returned, failed, panicked, Instance, CloudEvent, done, ◌>>=◌, ◌>>◌,
}
use direktiv.Engine.Instance.{close}
use direktiv.Engine.Invoke.{
  create, Invoked, prepare_inserted, prepare_created, prepare_invoke, cron_inserted, cron_started,
  cron_created, cron_invoke, refuse, bad_start, events_input, is_event_start, events_inserted,
  events_created, events_invoke,
}
use direktiv.Engine.Invoke.Table.{
  TableAnswer, no_error, rolled_back, unread, InstanceRow, Database, Insertion, inserted,
  already_invoked, excluded, refused, any_recent, any_pending, row_of, insertion,
  add_workflow_instance,
}
use direktiv.Engine.Invoke.Created.{Created, create-Created, hiding-Created, pass-Created}

-- The rows are as before, or they have one new row, for the workflow of this name, which is stored
-- as active and whose start is of the kind. The row is a failed one if the workflow is exclusive
-- and some row was pending, and pending otherwise.
pub record OneMore (services : Services) (namespace name : String) (kind : Option Start → Bool)
    (db : Database) (rows : List InstanceRow) : Type 0 where
  pub wf : Workflow
  pub id : String
  pub is_stored : services.find_workflow namespace name ≡ stored_workflow true (some wf)
  pub is_kind : kind wf.start ≡ true
  pub is_added :
      rows ≡ db.rows ++ (row_of services.now name id (wf.exclusive && any_pending db.rows) ∷ [])

abbrev pub Guarded :
    Services → String → String → (Option Start → Bool) → Database → List InstanceRow → Type 0
Guarded services namespace name kind db rows =
    (rows ≡ db.rows) ⊎ OneMore services namespace name kind db rows

abbrev pub is_scheduled : Option Start → Bool
is_scheduled none = false
is_scheduled (some s) = get_type s == StartType.scheduled

insertion-cases :
    (answer : TableAnswer) (invoked blocked : Bool) (before after : List InstanceRow)
    → ((insertion answer invoked blocked before after).1 ≡ before)
      ⊎ ((insertion answer invoked blocked before after).1 ≡ after)
unfolding insertion
insertion-cases (rolled_back e known) invoked blocked before after = inl refl
insertion-cases (unread e known) true blocked before after = inl refl
insertion-cases (unread e known) false blocked before after = inr refl
insertion-cases no_error true blocked before after = inl refl
insertion-cases no_error false true before after = inr refl
insertion-cases no_error false false before after = inr refl

prepare_inserted-rows :
    (id : String) (i : Instance) (a : Insertion × List InstanceRow) (w : World)
    → (prepare_inserted id i a w).1 ≡ a.1
unfolding prepare_inserted
prepare_inserted-rows id i (inserted, rows) w = refl
prepare_inserted-rows id i (already_invoked, rows) w = refl
prepare_inserted-rows id i (excluded, rows) w = refl
prepare_inserted-rows id i (refused e known, rows) w = refl

cron_inserted-rows :
    (id : String) (i : Instance) (a : Insertion × List InstanceRow) (w : World)
    → (cron_inserted id i a w).1 ≡ a.1
unfolding cron_inserted
cron_inserted-rows id i (inserted, rows) w = refl
cron_inserted-rows id i (already_invoked, rows) w = refl
cron_inserted-rows id i (excluded, rows) w = refl
cron_inserted-rows id i (refused e true, rows) w = refl
cron_inserted-rows id i (refused e false, rows) w = refl

events_inserted-rows :
    (id : String) (i : Instance) (a : Insertion × List InstanceRow) (w : World)
    → (events_inserted id i a w).1 ≡ a.1
unfolding events_inserted
events_inserted-rows id i (inserted, rows) w = refl
events_inserted-rows id i (already_invoked, rows) w = refl
events_inserted-rows id i (excluded, rows) w = refl
events_inserted-rows id i (refused e known, rows) w = refl

added :
    (services : Services) (namespace name : String) (kind : Option Start → Bool) (db : Database)
    (i : Instance) (cron : Bool)
    → services.find_workflow namespace name ≡ stored_workflow true (some i.wf)
    → kind i.wf.start ≡ true
    → Guarded services namespace name kind db
        (add_workflow_instance services.now name i.id cron i.wf.exclusive db).1
unfolding add_workflow_instance
added services namespace name kind db i cron h k =
    let blocked = i.wf.exclusive && any_pending db.rows in
    let after = db.rows ++ (row_of services.now name i.id blocked ∷ []) in
    elim (insertion-cases db.answer (cron && any_recent services.now db.rows) blocked db.rows
      after) [
        | inl same ↦ inl same
        | inr more ↦
            inr (record { wf = i.wf; id = i.id; is_stored = h; is_kind = k; is_added = more })
      ]

-- A test decides between two invocations.
tested :
    (G : List InstanceRow → Type 0) (b : Bool) (x y : Invoked)
    → (b ≡ true → G x.1)
    → G y.1
    → G (if b then x else y).1
tested G true x y f g = f refl
tested G false x y f g = g

prepare_created-Guarded :
    (services : Services) (namespace name workflow_id : String) (db : Database)
    (out : Outcome Instance) (w : World)
    → Created services namespace name (out, w)
    → Guarded services namespace name is_default_start db
        (prepare_created services name workflow_id db (out, w)).1
unfolding prepare_created
prepare_created-Guarded services namespace name workflow_id db (failed e) w h = inl refl
prepare_created-Guarded services namespace name workflow_id db panicked w h = inl refl
prepare_created-Guarded services namespace name workflow_id db (returned i) w h =
    let G = Guarded services namespace name is_default_start db in
    let add = add_workflow_instance services.now name i.id false i.wf.exclusive db in
    tested G (is_default_start i.wf.start) (prepare_inserted workflow_id i add w)
      (refuse bad_start db.rows w)
      (λ k.
        subst G (sym (prepare_inserted-rows workflow_id i add w))
          (added services namespace name is_default_start db i false h k))
      (inl refl)

cron_started-Guarded :
    (services : Services) (namespace name workflow_id : String) (db : Database) (i : Instance)
    (start : Option Start) (w : World)
    → i.wf.start ≡ start
    → services.find_workflow namespace name ≡ stored_workflow true (some i.wf)
    → Guarded services namespace name is_scheduled db
        (cron_started services name workflow_id db i start w).1
cron_started-Guarded services namespace name workflow_id db i none w e h = inl refl
cron_started-Guarded services namespace name workflow_id db i (some s) w e h =
    let G = Guarded services namespace name is_scheduled db in
    let add = add_workflow_instance services.now name i.id true i.wf.exclusive db in
    tested G (get_type s == StartType.scheduled) (cron_inserted workflow_id i add w)
      (refuse bad_start db.rows w)
      (λ k.
        subst G (sym (cron_inserted-rows workflow_id i add w))
          (added services namespace name is_scheduled db i true h (ap is_scheduled e ∙ k)))
      (inl refl)

cron_created-Guarded :
    (services : Services) (namespace name workflow_id : String) (db : Database)
    (out : Outcome Instance) (w : World)
    → Created services namespace name (out, w)
    → Guarded services namespace name is_scheduled db
        (cron_created services name workflow_id db (out, w)).1
unfolding cron_created
cron_created-Guarded services namespace name workflow_id db (failed e) w h = inl refl
cron_created-Guarded services namespace name workflow_id db panicked w h = inl refl
cron_created-Guarded services namespace name workflow_id db (returned i) w h =
    cron_started-Guarded services namespace name workflow_id db i i.wf.start w refl h

events_created-Guarded :
    (services : Services) (namespace name workflow_id : String) (db : Database)
    (out : Outcome Instance) (w : World)
    → Created services namespace name (out, w)
    → Guarded services namespace name is_event_start db
        (events_created services name workflow_id db (out, w)).1
unfolding events_created
events_created-Guarded services namespace name workflow_id db (failed e) w h = inl refl
events_created-Guarded services namespace name workflow_id db panicked w h = inl refl
events_created-Guarded services namespace name workflow_id db (returned i) w h =
    let G = Guarded services namespace name is_event_start db in
    let add = add_workflow_instance services.now name i.id false i.wf.exclusive db in
    tested G (is_event_start i.wf.start) (events_inserted workflow_id i add w)
      ((close >> done none) w, db.rows)
      (λ k.
        subst G (sym (events_inserted-rows workflow_id i add w))
          (added services namespace name is_event_start db i false h k))
      (inl refl)

-- Of the three ways to start a workflow each adds at most one row to the table of instances,
-- whatever the database answers, and only for a workflow that is stored as active and whose start
-- is of its kind: no start or the default one for a call from outside, the scheduled one for a
-- timer, and one of the three kinds with events for events. The row is one of a failed instance if
-- the workflow is exclusive and some instance in the table was pending, and pending otherwise.
pub invoke-Guarded :
    (services : Services) (namespace name workflow_id : String) (input : Value)
    (events : List CloudEvent) (db : Database) (w : World)
    → Guarded services namespace name is_default_start db
        (prepare_invoke services namespace name workflow_id input db w).1
      × Guarded services namespace name is_scheduled db
          (cron_invoke services namespace name workflow_id db w).1
      × Guarded services namespace name is_event_start db
          (events_invoke services namespace name workflow_id events db w).1
unfolding prepare_invoke cron_invoke events_invoke
invoke-Guarded services namespace name workflow_id input events db w =
    let direct = create services namespace name input w in
    let timed = create services namespace name (object end) w in
    let sent = (events_input events end >>= λ m. create services namespace name (object m)) w in
    (
      prepare_created-Guarded services namespace name workflow_id db (hidden direct.0) direct.1 (
          hiding-Created services namespace name direct.0 direct.1
            (create-Created services namespace name input w)),
      cron_created-Guarded services namespace name workflow_id db (hidden timed.0) timed.1 (
          hiding-Created services namespace name timed.0 timed.1
            (create-Created services namespace name (object end) w)),
      events_created-Guarded services namespace name workflow_id db sent.0 sent.1
          (pass-Created services namespace name (events_input events end w)),
    )
