-- ===== src/Engine/Timers/Order.antt =====
-- What every operation of the timer manager keeps true of the items of its map.
use direktiv.Base.{
  ℕ, suc, ◌<◌, String, str_eq, ◌≡◌, refl, Bool, true, false, List, [], ◌∷◌, Option, none, some, inl,
  inr, Bool-cases, Dict, lookup, insert, delete, All, All-map, arith,
}
use direktiv.Engine.Timers.{
  TimerItem, TimerManager, is_registered, item_of, register_function, add_one_shot, add_cron,
  disable_timer, after_execution, delete_each, delete_timers_for_instance, delete_timer_by_name,
}

abbrev Below : Option ℕ → ℕ → Type 0
Below none n = Unit {0}
Below (some h) n = h < n

-- The item is under its own name, its function is registered, and its timer, if it has one, was
-- started before the next one.
abbrev Fits : List String → ℕ → String × TimerItem → Type 0
Fits fns n e = (e.1.name ≡ e.0) × (is_registered e.1.fn fns ≡ true) × Below e.1.handle n

-- All the items of the map fit.
abbrev pub InOrder : TimerManager → Type 0
InOrder tm = All (Fits tm.fns tm.next) tm.timers

module _ (P : String × TimerItem → Type 0) where
  insert-All :
      (k : String) (ti : TimerItem) (m : Dict TimerItem)
      → P (k, ti)
      → All P m
      → All P (insert k ti m)
  unfolding insert
  insert-All k ti [] p h = (p, tt)
  insert-All k ti ((j, t) ∷ m) p h = elim (Bool-cases (str_eq j k)) [
    | inl e ↦ rw e (p, h.1)
    | inr e ↦ rw e (h.0, insert-All k ti m p h.1)
  ]

  delete-All : (k : String) (m : Dict TimerItem) → All P m → All P (delete k m)
  unfolding delete
  delete-All k [] h = tt
  delete-All k ((j, t) ∷ m) h = elim (Bool-cases (str_eq j k)) [
    | inl e ↦ rw e (delete-All k m h.1)
    | inr e ↦ rw e (h.0, delete-All k m h.1)
  ]

  delete_each-All : (keys : List String) (m : Dict TimerItem) → All P m → All P (delete_each keys m)
  unfolding delete_each
  delete_each-All [] m h = h
  delete_each-All (key ∷ keys) m h = delete_each-All keys (delete key m) (delete-All key m h)

Below-suc : (o : Option ℕ) (n : ℕ) → Below o n → Below o (suc n)
Below-suc none n h = tt
Below-suc (some x) n h = omega arith

-- A new item is written without a timer, and again with what `handle` says.
twice-Fits :
    (name fn : String) (is_cron : Bool) (handle : Option ℕ) (n : ℕ) (tm : TimerManager)
    → is_registered fn tm.fns ≡ true
    → Below handle n
    → All (Fits tm.fns n) tm.timers
    → All (Fits tm.fns n) (
        insert name
          (item_of name fn is_cron handle)
          (insert name (item_of name fn is_cron none) tm.timers))
twice-Fits name fn is_cron handle n tm r b h =
    insert-All (Fits tm.fns n) name (item_of name fn is_cron handle) _ (refl, r, b)
      (insert-All (Fits tm.fns n) name (item_of name fn is_cron none) tm.timers (refl, r, tt) h)

started-Fits :
    (name fn : String) (is_cron : Bool) (tm : TimerManager)
    → is_registered fn tm.fns ≡ true
    → InOrder tm
    → All (Fits tm.fns (suc tm.next)) (
        insert name
          (item_of name fn is_cron (some tm.next))
          (insert name (item_of name fn is_cron none) tm.timers))
started-Fits name fn is_cron tm r h =
    twice-Fits name fn is_cron (some tm.next) (suc tm.next) tm r (omega arith) (
      All-map (Fits tm.fns tm.next) (Fits tm.fns (suc tm.next))
        (λ e p. (p.0, p.1, Below-suc e.1.handle tm.next p.2)) tm.timers h)

register_function-InOrder :
    (fn : String) (tm : TimerManager) → InOrder tm → InOrder (register_function fn tm).1
unfolding register_function is_registered
register_function-InOrder fn tm h = elim (Bool-cases (is_registered fn tm.fns)) [
  | inl e ↦ rw e h
  | inr e ↦ rw e (
      All-map (Fits tm.fns tm.next) (Fits (fn ∷ tm.fns) tm.next) (λ x p. (p.0, ground arith, p.2))
        tm.timers h)
]

add_one_shot-InOrder :
    (name fn : String) (is_past : Bool) (tm : TimerManager)
    → InOrder tm
    → InOrder (add_one_shot name fn is_past tm).1
unfolding add_one_shot
add_one_shot-InOrder name fn is_past tm h = elim (Bool-cases (is_registered fn tm.fns)) [
  | inr e ↦ rw e h
  | inl e ↦ elim (Bool-cases is_past) [
    | inl p ↦
        rw (e, p)
          (insert-All (Fits tm.fns tm.next) name (item_of name fn false none) tm.timers
            (refl, e, tt) h)
    | inr p ↦ rw (e, p) (started-Fits name fn false tm e h)
  ]
]

add_cron-InOrder :
    (name fn : String) (is_pattern is_added : Bool) (tm : TimerManager)
    → InOrder tm
    → InOrder (add_cron name fn is_pattern is_added tm).1
unfolding add_cron
add_cron-InOrder name fn is_pattern is_added tm h = elim (Bool-cases is_pattern) [
  | inr p ↦ rw p h
  | inl p ↦ elim (Bool-cases (is_registered fn tm.fns)) [
    | inr e ↦ rw (p, e) h
    | inl e ↦ elim (Bool-cases is_added) [
      | inl q ↦ rw (p, e, q) (started-Fits name fn true tm e h)
      | inr q ↦ rw (p, e, q) (twice-Fits name fn true none tm.next tm e tt h)
    ]
  ]
]

after_execution-InOrder :
    (ti : TimerItem) (tm : TimerManager) → InOrder tm → InOrder (after_execution ti tm)
unfolding after_execution disable_timer
after_execution-InOrder ti tm h = elim (Bool-cases ti.is_cron) [
  | inl e ↦ rw e h
  | inr e ↦ rw e (delete-All (Fits tm.fns tm.next) ti.name tm.timers h)
]

by_name-InOrder :
    (name : String) (tm : TimerManager) → InOrder tm → InOrder (delete_timer_by_name name tm)
unfolding delete_timer_by_name
by_name-InOrder name tm h = found (lookup name tm.timers) refl
  where
    found :
        (o : Option TimerItem) → lookup name tm.timers ≡ o → InOrder (delete_timer_by_name name tm)
    found none e = rw (e, delete_timer_by_name) (delete-All (Fits tm.fns tm.next) "" tm.timers h)
    found (some ti) e =
        rw (e, delete_timer_by_name) (delete-All (Fits tm.fns tm.next) ti.name tm.timers h)

-- Whatever is done to the timers, each item of the map stays under its own name, which is what the
-- deletion for an instance relies on, has a function that is registered, and holds no timer but one
-- that was started. It stays so when a function is registered, a timer is added once or by a
-- pattern, with success or not, has fired, or is deleted by its name or for an instance.
pub timers-InOrder :
    (name fn : String) (flag is_added : Bool) (ti : TimerItem) (tm : TimerManager)
    → InOrder tm
    → InOrder (register_function fn tm).1
      × InOrder (add_one_shot name fn flag tm).1
      × InOrder (add_cron name fn flag is_added tm).1
      × InOrder (after_execution ti tm)
      × InOrder (delete_timer_by_name name tm)
      × InOrder (delete_timers_for_instance name tm)
unfolding delete_timers_for_instance
timers-InOrder name fn flag is_added ti tm h = (
  register_function-InOrder fn tm h,
  add_one_shot-InOrder name fn flag tm h,
  add_cron-InOrder name fn flag is_added tm h,
  after_execution-InOrder ti tm h,
  by_name-InOrder name tm h,
  delete_each-All (Fits tm.fns tm.next) _ tm.timers h,
)
