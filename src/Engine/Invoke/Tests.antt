-- ===== src/Engine/Invoke/Tests.antt =====
-- The theorems on invocations, at the sample workflow.
use direktiv.Base.{◌≡◌, refl, true, [], ◌∷◌, none, some, inl}
use direktiv.Model.Value.{text}
use direktiv.Model.Samples.{sample}
use direktiv.Model.Workflow.{Workflow}
use direktiv.Engine.Services.{Services, stored_workflow}
use direktiv.Engine.World.{failed}
use direktiv.Engine.Samples.{services, first_world}
use direktiv.Engine.Action.{is_default_start}
use direktiv.Engine.Invoke.{prepare_invoke, cron_invoke, events_invoke, is_event_start}
use direktiv.Engine.Invoke.Table.{no_error, InstanceRow, Database, exclusion, row_of}
use direktiv.Engine.Invoke.Guards.{Guarded, is_scheduled, invoke-Guarded}
use direktiv.Engine.Invoke.Exclusive.{exclusive-refused, after_making}

-- An exclusive workflow without a start.
abbrev alone : Workflow
alone = record sample { exclusive = true; start = none }

abbrev outside : Services
outside = record services { find_workflow = λ namespace name. stored_workflow true (some alone) }

-- An instance of another workflow is pending.
abbrev busy : InstanceRow
busy = record { instance_id = "n/x/1"; workflow = "x"; status = "pending"; begin_time = 0 }

abbrev database : Database
database = record { rows = busy ∷ []; answer = no_error }

invoke-Guarded_example :
    Guarded outside "n" "w" is_default_start database
      (prepare_invoke outside "n" "w" "id" (text "x") database first_world).1
    × Guarded outside "n" "w" is_scheduled database
        (cron_invoke outside "n" "w" "id" database first_world).1
    × Guarded outside "n" "w" is_event_start database
        (events_invoke outside "n" "w" "id" [] database first_world).1
invoke-Guarded_example = invoke-Guarded outside "n" "w" "id" (text "x") [] database first_world

exclusive-refused_example : prepare_invoke outside "n" "w" "id" (text "x") database first_world ≡ (
  (failed exclusion, after_making outside "n" "w" (text "x") alone first_world),
  busy ∷ row_of 1000 "w" "n/w/fresh" true ∷ [],
)
exclusive-refused_example =
    exclusive-refused outside "n" "w" "id" (text "x") alone busy database first_world refl refl refl
      (inl refl) refl refl
