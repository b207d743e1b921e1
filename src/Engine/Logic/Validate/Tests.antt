-- ===== src/Engine/Logic/Validate/Tests.antt =====
-- The theorems on the validate state at two states, whose schemas accept everything and nothing.
use direktiv.Jqer.{evaluate, scan}
use direktiv.Jqer.Strings.{find, trim_space, has_prefix}
use direktiv.Base.{refl, Bool, true, some}
use direktiv.Model.Value.{null, boolean}
use direktiv.Model.Samples.{common_of}
use direktiv.Model.State.Validate.{ValidateState}
use direktiv.Model.StateType
use direktiv.Engine.Samples.{services, first_world}
use direktiv.Engine.Logic.Validate.{subject_query, judge, run, logic}
use direktiv.Engine.Logic.Validate.Passes.{Passed, validate-Passed}
use direktiv.Engine.Logic.Noop.{refuse_savedata, refuse_wakedata}
use direktiv.Engine.Jq.{jq_object, jq_one, jq, only, as_object}

abbrev checking : Bool → ValidateState
checking b = record {
  common = record (common_of "check") { type = StateType.validate };
  subject = "";
  schema = boolean b;
  transform = null;
  transition = "last";
}

validate-Passed_example :
    Passed services
      (checking true)
      first_world
      (some (record { next_state = "last"; transform = null }))
      first_world
unfolding logic run refuse_savedata refuse_wakedata jq_object jq_one jq only as_object judge
    subject_query evaluate find trim_space scan has_prefix
validate-Passed_example =
    validate-Passed services (checking true)
      (some (record { next_state = "last"; transform = null })) first_world first_world refl
