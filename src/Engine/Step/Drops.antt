-- ===== src/Engine/Step/Drops.antt =====
-- What `Transition` does when the instance is out of step, or when the next state cannot be found.
use direktiv.Base.{◌≡◌, false, some}
use direktiv.Engine.Services.{Services}
use direktiv.Engine.World.{World, Outcome, returned, Record}

-- The instance is let go, and its record stays as it is.
pub record Dropped (o : Outcome (Unit {0}) × World) (r : Record) : Type 0 where
  pub returns : o.0 ≡ returned tt
  pub stored : o.1.instance.rec ≡ some r
  pub unlocked : o.1.instance.locked ≡ false
