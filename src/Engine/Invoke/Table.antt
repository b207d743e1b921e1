-- ===== src/Engine/Invoke/Table.antt =====
-- `addWorkflowInstance` of pkg/direktiv/db-instance.go, on the rows of the table of instances.
use direktiv.Base.{
  ℕ, ◌+◌, ltb, String, str_eq, Bool, true, false, ◌&&◌, ◌||◌, List, [], ◌∷◌, ◌++◌, if◌then◌else◌,
}
use direktiv.Engine.Errors.{Failure, catchable}
use direktiv.Engine.Services.{seconds}

-- A row of the table of instances, as far as it is queried here.
pub record InstanceRow : Type 0 where
  pub instance_id : String
  pub workflow : String
  pub status : String
  pub begin_time : ℕ

-- How the database answers the calls of one insertion: without an error, with one by which the
-- transaction is rolled back, or with one only when the row is read again after the commit. With an
-- error comes whether its text has one of the words "invoked" and "transactions".
pub data TableAnswer : Type 0 where
  no_error : TableAnswer
  rolled_back : Failure → Bool → TableAnswer
  unread : Failure → Bool → TableAnswer

-- The table, and the answer of the database.
pub record Database : Type 0 where
  pub rows : List InstanceRow
  pub answer : TableAnswer

pub data Insertion : Type 0 where
  inserted : Insertion
  already_invoked : Insertion
  excluded : Insertion
  refused : Failure → Bool → Insertion

-- `BeginTimeGT(t)`, where t is thirty seconds ago; of any workflow.
unfoldable pub any_recent : ℕ → List InstanceRow → Bool
any_recent now [] = false
any_recent now (r ∷ rs) = ltb now (r.begin_time + seconds 30) || any_recent now rs

-- `StatusEQ("pending")`; of any workflow.
unfoldable pub any_pending : List InstanceRow → Bool
any_pending [] = false
any_pending (r ∷ rs) = str_eq r.status "pending" || any_pending rs

abbrev pub row_of : ℕ → String → String → Bool → InstanceRow
row_of now name id blocked = record {
  instance_id = id;
  workflow = name;
  status = if blocked then "failed" else "pending";
  begin_time = now;
}

-- The result, and the rows: as before, or with the new one.
unfoldable pub insertion :
    TableAnswer → Bool → Bool → List InstanceRow → List InstanceRow → Insertion × List InstanceRow
insertion (rolled_back e known) invoked blocked before after = (refused e known, before)
insertion (unread e known) true blocked before after = (already_invoked, before)
insertion (unread e known) false blocked before after = (refused e known, after)
insertion no_error true blocked before after = (already_invoked, before)
insertion no_error false true before after = (excluded, after)
insertion no_error false false before after = (inserted, after)

-- `addWorkflowInstance`: a row for an instance that the exclusion refuses is added all the same.
unfoldable pub add_workflow_instance :
    ℕ → String → String → Bool → Bool → Database → Insertion × List InstanceRow
unfolding any_recent any_pending insertion
add_workflow_instance now name id cron_check mutex db =
    let blocked = mutex && any_pending db.rows in
    insertion db.answer (cron_check && any_recent now db.rows) blocked db.rows
      (db.rows ++ (row_of now name id blocked ∷ []))

abbrev pub exclusion : Failure
exclusion =
    catchable "direktiv.mutex" "exclusive property prevents new instances while another exists"
