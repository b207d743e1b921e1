-- ===== src/Engine/Logic/Variables/Tests.antt =====
-- The theorem on the setter and the getter state, at a sample variable.
use direktiv.Jqer.{evaluate, scan}
use direktiv.Jqer.Strings.{find, trim_space, has_prefix}
use direktiv.Base.{◌≡◌, refl, some, ◌∷◌, []}
use direktiv.Model.Value.{text, null, object, end, field}
use direktiv.Model.State.Getter.{GetterState, GetterDefinition}
use direktiv.Model.State.Setter.{SetterState, SetterDefinition}
use direktiv.Model.Samples.{common_of}
use direktiv.Varstore.{scope_string}
use direktiv.Engine.Jq.{jq_one}
use direktiv.Engine.Logic.Noop.{refuse_savedata, refuse_wakedata}
use direktiv.Engine.World.{World, json, returned, nothing, no_wake}
use direktiv.Engine.Samples.{services, first_world, first_row}
use direktiv.Engine.Instance.{set_field}
use direktiv.Engine.Logic.Events.Stores.{with_data}
use direktiv.Engine.Logic.Variables.{reread}
use direktiv.Engine.Logic.Variables.Getter
use direktiv.Engine.Logic.Variables.Setter
use direktiv.Engine.Logic.Variables.SetGet.{set-get}

abbrev set_x : SetterDefinition
set_x = record { scope = "instance"; key = "x"; value = text "jq(.)" }

abbrev get_x : GetterDefinition
get_x = record { scope = ""; key = "x" }

abbrev setter : SetterState
setter = record {
  common = common_of "s";
  variables = set_x ∷ [];
  transform = null;
  transition = "next";
}

abbrev getter : GetterState
getter = record {
  common = common_of "g";
  variables = get_x ∷ [];
  transform = null;
  transition = "last";
}

-- The query gives the state data, an empty object.
abbrev after_set : World
after_set = record first_world {
  variables = record { scope = "n.w.i"; size = 1; key = "x"; val = some (json (object end)) } ∷ [];
}

set-get_example :
    ((Setter.logic services setter).run nothing no_wake first_world).0
      ≡ returned (some (record { next_state = "next"; transform = null }))
    × (Getter.logic services getter).run nothing no_wake after_set ≡ (
      returned (some (record { next_state = "last"; transform = null })),
      with_data (set_field "var" (object (field "x" (object end) end)) end) after_set,
    )
unfolding reread Setter.logic Setter.run refuse_savedata refuse_wakedata jq_one scope_string
    evaluate find trim_space scan has_prefix
set-get_example =
    set-get services setter set_x (object end) first_row getter get_x first_row end first_world
      after_set refl refl refl refl refl refl refl refl refl refl refl
