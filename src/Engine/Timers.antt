-- ===== src/Engine/Timers.antt =====
-- pkg/direktiv/timer.go: the timers of one server. A timer that was started is a number in `live`,
-- and an item of the map holds that number once the timer is started. The broadcasts to other
-- servers are left out, and so is the cron library: its entries are numbers like the others.
pub mod Deletes
pub mod Order
pub mod Shadowed
mod Tests
use Prim.Native.String.{◌++◌ as join}
use direktiv.Base.{
  ℕ, suc, ◌==◌, String, str_eq, is_empty, Bool, true, false, not, ◌&&◌, ◌||◌, List, [], ◌∷◌, ◌++◌,
  Option, none, some, Error, about, new, if◌then◌else◌, Dict, lookup, insert, delete,
}
use direktiv.Model.Pattern.{codes}

-- `timerItem`: `fn` is the name of its function, whose argument is left out.
pub record TimerItem : Type 0 where
  pub name : String
  pub is_cron : Bool
  pub fn : String
  pub handle : Option ℕ

pub record TimerManager : Type 0 where
  pub fns : List String
  pub timers : Dict TimerItem
  pub live : List ℕ
  pub next : ℕ

unfoldable pub is_registered : String → List String → Bool
is_registered fn [] = false
is_registered fn (f ∷ fs) = str_eq f fn || is_registered fn fs

unfoldable pub register_function : String → TimerManager → Option Error × TimerManager
register_function fn tm =
    if is_registered fn tm.fns
    then (some (new "function already exists"), tm)
    else (none, record tm { fns = fn ∷ tm.fns })

unfoldable pub stop : ℕ → List ℕ → List ℕ
stop h [] = []
stop h (x ∷ xs) = if x == h then stop h xs else x ∷ stop h xs

-- `prepDisableTimer`, less the name that it returns.
abbrev pub stop_item : TimerItem → List ℕ → List ℕ
stop_item ti live = elim ti.handle [ none ↦ live | some h ↦ stop h live ]

-- `disableTimer`: whatever the map has under the name of the item is deleted.
unfoldable pub disable_timer : TimerItem → TimerManager → TimerManager
disable_timer ti tm = record tm { live = stop_item ti tm.live; timers = delete ti.name tm.timers }

-- `executeFunction` after its function returned.
unfoldable pub after_execution : TimerItem → TimerManager → TimerManager
after_execution ti tm = if ti.is_cron then tm else disable_timer ti tm

abbrev pub item_of : String → String → Bool → Option ℕ → TimerItem
item_of name fn is_cron handle = record { name = name; is_cron = is_cron; fn = fn; handle = handle }

-- `tm.timers[name] = ti`.
abbrev pub with_item : String → TimerItem → TimerManager → TimerManager
with_item name ti tm = record tm { timers = insert name ti tm.timers }

-- `newTimerItem`, once the function is found.
abbrev pub new_timer_item : String → String → Bool → TimerManager → TimerManager
new_timer_item name fn is_cron = with_item name (item_of name fn is_cron none)

-- The timer of the item under that name is started, and its number is put into the item.
abbrev pub started : String → TimerItem → TimerManager → TimerManager
started name ti tm = record (with_item name (record ti { handle = some tm.next }) tm) {
  live = tm.next ∷ tm.live;
  next = suc tm.next;
}

-- `is_past` says that the time is before now: then the item stays in the map.
unfoldable pub add_one_shot : String → String → Bool → TimerManager → Option Error × TimerManager
add_one_shot name fn is_past tm =
    if not (is_registered fn tm.fns)
    then (some (about "invalid function" fn), tm)
    else (if is_past
        then (some (about "one-shot is in the past" name), new_timer_item name fn false tm)
        else (none, started name (item_of name fn false none) (new_timer_item name fn false tm)))

-- `is_pattern` says that the parser that is made here accepts the pattern, and `is_added` that
-- `AddFunc` does, whose parser wants all five fields. Where it does not, the item stays in the map,
-- into which it is written for the second time.
unfoldable pub add_cron : String → String → Bool → Bool → TimerManager → Option Error × TimerManager
add_cron name fn is_pattern is_added tm =
    if not is_pattern
    then (some (about "bad pattern" name), tm)
    else (if not (is_registered fn tm.fns)
        then (some (about "invalid function" fn), tm)
        else (let ti = item_of name fn true none in
            let tm' = new_timer_item name fn true tm in
            if is_added
            then (none, started name ti tm')
            else (some (about "can not enable timer" name), with_item name ti tm')))

unfoldable pub is_prefix : List ℕ → List ℕ → Bool
is_prefix [] s = true
is_prefix (c ∷ p) [] = false
is_prefix (c ∷ p) (d ∷ s) = (c == d) && is_prefix p s

-- `strings.HasPrefix`.
abbrev pub has_prefix : String → String → Bool
has_prefix s prefix = is_prefix (codes prefix) (codes s)

-- The loop of `delT`: the timers of the items whose names have the prefix are stopped, and their
-- names collected.
unfoldable pub stop_matching : String → Dict TimerItem → List ℕ → List ℕ
stop_matching prefix [] live = live
stop_matching prefix ((key, ti) ∷ m) live =
    stop_matching prefix m (if has_prefix ti.name prefix then stop_item ti live else live)

unfoldable pub matching : String → Dict TimerItem → List String
matching prefix [] = []
matching prefix ((key, ti) ∷ m) =
    if has_prefix ti.name prefix then ti.name ∷ matching prefix m else matching prefix m

unfoldable pub delete_each : List String → Dict TimerItem → Dict TimerItem
delete_each [] m = m
delete_each (key ∷ keys) m = delete_each keys (delete key m)

abbrev pub timeout_prefix : String → String
timeout_prefix id = join "timeout:" id

-- `deleteTimersForInstanceNoBroadcast`.
unfoldable pub delete_timers_for_instance : String → TimerManager → TimerManager
delete_timers_for_instance id tm = record tm {
  live = stop_matching id tm.timers (stop_matching (timeout_prefix id) tm.timers tm.live);
  timers = delete_each (matching (timeout_prefix id) tm.timers ++ matching id tm.timers) tm.timers;
}

-- `deleteTimerByName` for a timer of this server. Where there is none, the empty name is deleted.
unfoldable pub delete_timer_by_name : String → TimerManager → TimerManager
delete_timer_by_name name tm = elim (lookup name tm.timers) [
  | none ↦ record tm { timers = delete "" tm.timers }
  | some ti ↦ record tm { live = stop_item ti tm.live; timers = delete ti.name tm.timers }
]
