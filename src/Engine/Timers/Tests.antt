-- ===== src/Engine/Timers/Tests.antt =====
-- The theorems on timers at a server with one timer.
use direktiv.Base.{◌≡◌, refl, true, false, ◌||◌, [], ◌∷◌, none, some, arith, lookup, if◌then◌else◌}
use direktiv.Engine.Timers.{
  TimerItem, TimerManager, item_of, has_prefix, is_registered, timeout_prefix, add_one_shot,
  register_function, add_cron, after_execution, delete_timers_for_instance, delete_timer_by_name,
}
use direktiv.Engine.Timers.Deletes.{is_live, delete_timers-lookup}
use direktiv.Engine.Timers.Order.{InOrder, timers-InOrder}
use direktiv.Engine.Timers.Shadowed.{twice, delete_timers-misses}

abbrev waiting : TimerItem
waiting = item_of "i" "sleepWakeup" false (some 0)

abbrev manager : TimerManager
manager = record {
  fns = "sleepWakeup" ∷ "cleanup" ∷ [];
  timers = ("i", waiting) ∷ [];
  live = 0 ∷ [];
  next = 1;
}

delete_timers-lookup_example : lookup "i" (delete_timers_for_instance "i" manager).timers ≡ (
    if has_prefix "i" (timeout_prefix "i") || has_prefix "i" "i"
    then none
    else lookup "i" manager.timers)
delete_timers-lookup_example = delete_timers-lookup "i" "i" manager (refl, tt)

timers-InOrder_example :
    InOrder (register_function "cleanup" manager).1
    × InOrder (add_one_shot "j" "cleanup" true manager).1
    × InOrder (add_cron "j" "cleanup" true true manager).1
    × InOrder (after_execution waiting manager)
    × InOrder (delete_timer_by_name "j" manager)
    × InOrder (delete_timers_for_instance "j" manager)
unfolding is_registered
timers-InOrder_example =
    timers-InOrder "j" "cleanup" true true waiting manager ((refl, refl, ground arith), tt)

delete_timers-misses_example :
    is_live 1 (delete_timers_for_instance "j" (twice "j" "sleepWakeup" manager)).live ≡ true
unfolding is_registered
delete_timers-misses_example =
    delete_timers-misses "j" "j" "sleepWakeup" manager refl ((λ e. ground arith), tt)
