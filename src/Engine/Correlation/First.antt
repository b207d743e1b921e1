-- ===== src/Engine/Correlation/First.antt =====
-- The first of two events of different types that a listener waits for.
use direktiv.Base.{
  ◌⊎◌, String, str_eq, str_eq_ne, is_empty, eq_iff, ◌≡◌, ◌≢◌, refl, ap, sym, ◌∙◌, Bool, true, false,
  List, [], ◌∷◌, ◌++◌, Option, none, some, arith, if◌then◌else◌, ℕ, suc, ◌==◌, Dict, insert,
}
use direktiv.Model.Value.{Value}
use direktiv.Engine.World.{CloudEvent}
use direktiv.Engine.Correlation.Rows.{
  Correlator, Listener, Wait, type_of, has_event_in_list, generate_correlation_hash, hash_base,
  wait_events, types_of,
}
use direktiv.Engine.Correlation.Handle.{
  Tables, update_multiple_events, updated_waits, update_waits, take_rows, add_event_listener_wait,
  handle_rows, rows_of, candidates, handle_event,
}
use direktiv.Engine.Correlation.Cases.{Passes, handle_locked-multi}

rows_of_two :
    (event : CloudEvent) (l : Listener) (x y : Dict Value) (bx by : Bool)
    → str_eq (type_of x) event.type ≡ bx
    → str_eq (type_of y) event.type ≡ by
    → rows_of event l (x ∷ y ∷ [])
      ≡ (if bx then (l, x) ∷ (if by then (l, y) ∷ [] else []) else (if by then (l, y) ∷ [] else []))
unfolding rows_of
rows_of_two event l x y bx by ex ey =
    ap (λ b. if b then (l, x) ∷ rows_of event l (y ∷ []) else rows_of event l (y ∷ [])) ex
    ∙ ap (λ rest. if bx then (l, x) ∷ rest else rest) (ap (λ b. if b then (l, y) ∷ [] else []) ey)

candidates_one :
    (ns : String) (event : CloudEvent) (l : Listener) (rows : List (Listener × Dict Value))
    → l.namespace ≡ ns
    → rows_of event l l.events ≡ rows
    → candidates ns event (l ∷ []) ≡ rows ++ []
unfolding candidates
candidates_one ns event l rows here e =
    let same : str_eq l.namespace ns ≡ true = ground (arith, eq_iff l.namespace ns) in
    ap (λ b. (if b then rows_of event l l.events else []) ++ []) same ∙ ap (λ r. r ++ []) e

wait_events_two :
    (c : Correlator) (e : CloudEvent) (ks : List String) (x y k j : String)
    → generate_correlation_hash c e x ks ≡ k
    → generate_correlation_hash c e y ks ≡ j
    → k ≢ j
    → str_eq x e.type ≡ true
    → str_eq y e.type ≡ false
    → wait_events c e ks (x ∷ y ∷ []) [] ≡ (k, some e) ∷ (j, none) ∷ []
unfolding wait_events insert
wait_events_two c e ks x y k j hx hy ne ex ey = rw (hx, hy, ex, ey, str_eq_ne k j ne) refl

abbrev pub has_value : Option (Option CloudEvent) → Bool
has_value o = elim o [ none ↦ false | some v ↦ true ]

abbrev pub Entry : Type 0
Entry = String × Option CloudEvent

-- The range over a map of these two entries visits both, in one order or the other.
abbrev pub VisitsBoth : Correlator → Entry → Entry → Type 0
VisitsBoth c x y = (c.visited (x ∷ y ∷ []) ≡ x ∷ y ∷ []) ⊎ (c.visited (x ∷ y ∷ []) ≡ y ∷ x ∷ [])

-- What the listener has, and the two events: they carry the same values of the correlations, whose
-- map is `base`, and are of the types of the two definitions.
pub record Pair (c : Correlator) : Type 0 where
  pub listener : Listener
  pub first_map : Dict Value
  pub second_map : Dict Value
  pub a : CloudEvent
  pub b : CloudEvent
  pub base : Dict String
  pub two : listener.events ≡ first_map ∷ second_map ∷ []
  pub counts_two : listener.count ≡ 2
  pub first_type : type_of first_map ≡ a.type
  pub second_type : type_of second_map ≡ b.type
  pub other_type : a.type ≢ b.type
  pub first_passes : Passes c a first_map true
  pub second_passes : Passes c b second_map true
  pub first_base : hash_base c a.extensions listener.correlations ≡ some base
  pub second_base : hash_base c b.extensions listener.correlations ≡ some base
  pub other_hash : c.hash (insert "type" a.type base) ≢ c.hash (insert "type" b.type base)
  pub some_hash : c.hash (insert "type" a.type base) ≢ ""
  pub other_event : has_event_in_list b (a ∷ []) ≡ false
  pub visits :
      VisitsBoth c
        (c.hash (insert "type" a.type base), some a)
        (c.hash (insert "type" b.type base), some b)

module _ (c : Correlator) (p : Pair c) where
  abbrev pub first_key : String
  first_key = c.hash (insert "type" p.a.type p.base)

  abbrev pub second_key : String
  second_key = c.hash (insert "type" p.b.type p.base)

  pub first_hash :
      (type : String)
      → generate_correlation_hash c p.a type p.listener.correlations
        ≡ c.hash (insert "type" type p.base)
  unfolding generate_correlation_hash
  first_hash type = rw (p.first_base) refl

  pub second_hash :
      (type : String)
      → generate_correlation_hash c p.b type p.listener.correlations
        ≡ c.hash (insert "type" type p.base)
  unfolding generate_correlation_hash
  second_hash type = rw (p.second_base) refl

  is_first : str_eq (type_of p.first_map) p.a.type ≡ true
  is_first = ground (arith, p.first_type, eq_iff (type_of p.first_map) p.a.type)

  not_second : str_eq (type_of p.second_map) p.a.type ≡ false
  not_second =
      ap (λ t. str_eq t p.a.type) p.second_type
      ∙ str_eq_ne p.b.type p.a.type (λ e. p.other_type (sym e))

  not_first : str_eq (type_of p.first_map) p.b.type ≡ false
  not_first = ap (λ t. str_eq t p.b.type) p.first_type ∙ str_eq_ne p.a.type p.b.type p.other_type

  is_second : str_eq (type_of p.second_map) p.b.type ≡ true
  is_second = ground (arith, p.second_type, eq_iff (type_of p.second_map) p.b.type)

  -- The row that is added when the first event comes.
  waited :
      wait_events c p.a p.listener.correlations (types_of p.listener.events) []
      ≡ (first_key, some p.a) ∷ (second_key, none) ∷ []
  unfolding types_of
  waited =
      ap (λ ms. wait_events c p.a p.listener.correlations (types_of ms) []) p.two
      ∙ wait_events_two c p.a p.listener.correlations (type_of p.first_map) (type_of p.second_map)
          first_key second_key
          (first_hash (type_of p.first_map)
            ∙ ap (λ t. c.hash (insert "type" t p.base)) p.first_type)
          (first_hash (type_of p.second_map)
            ∙ ap (λ t. c.hash (insert "type" t p.base)) p.second_type)
          p.other_hash is_first not_second

  candidates_first :
      (ns : String)
      → p.listener.namespace ≡ ns
      → candidates ns p.a (p.listener ∷ []) ≡ (p.listener, p.first_map) ∷ []
  candidates_first ns h = candidates_one ns p.a p.listener ((p.listener, p.first_map) ∷ []) h (
      ap (rows_of p.a p.listener) p.two
      ∙ rows_of_two p.a p.listener p.first_map p.second_map true false is_first not_second)

  pub candidates_second :
      (ns : String)
      → p.listener.namespace ≡ ns
      → candidates ns p.b (p.listener ∷ []) ≡ (p.listener, p.second_map) ∷ []
  candidates_second ns h = candidates_one ns p.b p.listener ((p.listener, p.second_map) ∷ []) h (
      ap (rows_of p.b p.listener) p.two
      ∙ rows_of_two p.b p.listener p.first_map p.second_map false true not_first is_second)

  pub count_two : (p.listener.count == 1) ≡ false
  count_two = ground (arith, p.counts_two)

  abbrev pub idle : ℕ → Tables
  idle n = record { listeners = p.listener ∷ []; waits = []; next_id = n; answers = []; fired = [] }

  abbrev pub half : ℕ → Wait
  half n = record {
    id = n;
    listener = p.listener.id;
    events = (first_key, some p.a) ∷ (second_key, none) ∷ [];
  }

  abbrev pub waiting : ℕ → Tables
  waiting n = record (idle n) { waits = half n ∷ []; next_id = suc n }

  pub first-waits :
      (ns : String) (n : ℕ)
      → p.listener.namespace ≡ ns
      → handle_event c ns p.a (idle n) ≡ (true, waiting n)
  unfolding handle_event handle_rows update_multiple_events updated_waits update_waits take_rows
      add_event_listener_wait
  first-waits ns n h =
      let some_key : is_empty (generate_correlation_hash c p.a p.a.type p.listener.correlations)
          ≡ false =
        ap is_empty (first_hash p.a.type) ∙ str_eq_ne first_key "" p.some_hash in
      ap (λ rows. (true, handle_rows c p.a rows (idle n))) (candidates_first ns h)
      ∙ ap (λ t. (true, t))
          (handle_locked-multi c p.a p.listener p.first_map (idle n) p.first_passes count_two
            ∙ ap
                (λ b. if b then idle n else record (idle n) {
                  waits =
                      record {
                        id = n;
                        listener = p.listener.id;
                        events =
                            wait_events c p.a p.listener.correlations (types_of p.listener.events)
                              [];
                      }
                      ∷ [];
                  next_id = suc n;
                })
                some_key
            ∙ ap
                (λ evs. record (waiting n) {
                  waits = record { id = n; listener = p.listener.id; events = evs } ∷ [];
                })
                waited)
