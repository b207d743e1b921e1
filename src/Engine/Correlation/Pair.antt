-- ===== src/Engine/Correlation/Pair.antt =====
-- A listener that waits for two events of different types.
use direktiv.Engine.World.{CloudEvent}
use direktiv.Base.{inl, inr, ◌⊎◌, String, List, [], ◌∷◌, Option, none, some, ℕ, suc}
use direktiv.Engine.Correlation.Rows.{Correlator, Listener, Wait}
use direktiv.Engine.Correlation.Handle.{Tables, firing}
use direktiv.Engine.Correlation.First.{Pair, first_key, second_key, half}

abbrev in_order : {P Q : Type 0} → CloudEvent → CloudEvent → P ⊎ Q → List CloudEvent
in_order x y (inl e) = x ∷ y ∷ []
in_order x y (inr e) = y ∷ x ∷ []

module _ (c : Correlator) (p : Pair c) where
  abbrev full : ℕ → Wait
  full n = record (half c p n) {
    events = ((first_key c p), some p.a) ∷ ((second_key c p), some p.b) ∷ [];
  }

  -- The two events in the order in which the row is visited.
  abbrev pub visited_events : List CloudEvent
  visited_events = in_order p.a p.b p.visits

  -- A listener of an instance is gone once it has been served.
  abbrev pub served : Option (String × ℕ) → List Listener
  served none = p.listener ∷ []
  served (some s) = []

  abbrev pub both : List CloudEvent → ℕ → Tables
  both events n = record {
    listeners = served p.listener.signature;
    waits = [];
    next_id = suc n;
    answers = [];
    fired = firing c p.listener events ∷ [];
  }
