-- ===== src/Engine/Timers/Shadowed.antt =====
-- A timer whose item was replaced by another of the same name.
use direktiv.Base.{
  ℕ, suc, ◌==◌, String, str_eq, str_eq_self, ◌≡◌, ◌≢◌, refl, ◌∙◌, sym, subst, ap, true, false, List,
  [], ◌∷◌, All, Option, none, some, inl, inr, arith, Bool-cases, Dict, insert,
}
use direktiv.Engine.Timers.{
  TimerItem, TimerManager, is_registered, item_of, started, new_timer_item, stop, stop_item,
  stop_matching, has_prefix, timeout_prefix, add_one_shot, delete_timers_for_instance,
}
use direktiv.Engine.Timers.Deletes.{is_live, is_live-stop}

-- No item of the map holds the timer of that number.
abbrev pub Lacks : ℕ → Dict TimerItem → Type 0
Lacks h m = All (λ (e : String × TimerItem). e.1.handle ≢ some h) m

insert-Lacks :
    (h : ℕ) (k : String) (a b : TimerItem) (m : Dict TimerItem)
    → Lacks h m
    → b.handle ≢ some h
    → Lacks h (insert k b (insert k a m))
unfolding insert
insert-Lacks h k a b [] l n = rw (str_eq_self k) (n, tt)
insert-Lacks h k a b ((j, t) ∷ m) l n = elim (Bool-cases (str_eq j k)) [
  | inl e ↦ rw e (rw (str_eq_self k) (n, l.1))
  | inr e ↦ rw e (rw e (l.0, insert-Lacks h k a b m l.1 n))
]

insert_once-Lacks :
    (h : ℕ) (k : String) (b : TimerItem) (m : Dict TimerItem)
    → Lacks h m
    → b.handle ≢ some h
    → Lacks h (insert k b m)
unfolding insert
insert_once-Lacks h k b [] l n = (n, tt)
insert_once-Lacks h k b ((j, t) ∷ m) l n = elim (Bool-cases (str_eq j k)) [
  | inl e ↦ rw e (n, l.1)
  | inr e ↦ rw e (l.0, insert_once-Lacks h k b m l.1 n)
]

stop_item-keeps :
    (h : ℕ) (ti : TimerItem) (live : List ℕ)
    → ti.handle ≢ some h
    → is_live h live ≡ true
    → is_live h (stop_item ti live) ≡ true
stop_item-keeps h ti live n e = by_handle ti.handle n
  where
    by_handle :
        (o : Option ℕ)
        → o ≢ some h
        → is_live h (elim o [ none ↦ live | some x ↦ stop x live ]) ≡ true
    by_handle none n' = e
    by_handle (some x) n' =
        let p = is_live-stop h x live in
        elim (Bool-cases (x == h)) [
          | inl q ↦ let same : x ≡ h = ground arith in absurd (n' (ap (λ y. some y) same))
          | inr q ↦ ground arith
        ]

stop_matching-keeps :
    (h : ℕ) (prefix : String) (m : Dict TimerItem) (live : List ℕ)
    → Lacks h m
    → is_live h live ≡ true
    → is_live h (stop_matching prefix m live) ≡ true
unfolding stop_matching
stop_matching-keeps h prefix [] live l e = e
stop_matching-keeps h prefix ((j, t) ∷ m) live l e = elim (Bool-cases (has_prefix t.name prefix)) [
  | inl p ↦
      rw p (stop_matching-keeps h prefix m (stop_item t live) l.1 (stop_item-keeps h t live l.0 e))
  | inr p ↦ rw p (stop_matching-keeps h prefix m live l.1 e)
]

-- A timer that fires once, started under a name.
abbrev shot : String → String → TimerManager → TimerManager
shot name fn tm = started name (item_of name fn false none) (new_timer_item name fn false tm)

abbrev pub twice : String → String → TimerManager → TimerManager
twice name fn tm = (add_one_shot name fn false (add_one_shot name fn false tm).1).1

add_one_shot-starts :
    (name fn : String) (tm : TimerManager)
    → is_registered fn tm.fns ≡ true
    → (add_one_shot name fn false tm).1 ≡ shot name fn tm
unfolding add_one_shot
add_one_shot-starts name fn tm r = rw r refl

twice-starts :
    (name fn : String) (tm : TimerManager)
    → is_registered fn tm.fns ≡ true
    → twice name fn tm ≡ shot name fn (shot name fn tm)
twice-starts name fn tm r =
    ap (λ (x : TimerManager). (add_one_shot name fn false x).1) (add_one_shot-starts name fn tm r)
    ∙ add_one_shot-starts name fn (shot name fn tm) r

-- Where two timers are started under one name, as by the retries of two branches of an instance,
-- the first can still fire after the timers of the instance are deleted.
pub delete_timers-misses :
    (id name fn : String) (tm : TimerManager)
    → is_registered fn tm.fns ≡ true
    → Lacks tm.next tm.timers
    → is_live tm.next (delete_timers_for_instance id (twice name fn tm)).live ≡ true
unfolding delete_timers_for_instance is_live
delete_timers-misses id name fn tm r l =
    let tm' = shot name fn (shot name fn tm) in
    let idle = item_of name fn false none in
    let first = item_of name fn false (some tm.next) in
    let second = item_of name fn false (some (suc tm.next)) in
    let lacks : Lacks tm.next tm'.timers =
      insert_once-Lacks tm.next name second _
        (insert-Lacks tm.next name first idle _
          (insert_once-Lacks tm.next name idle tm.timers l (λ e. ground arith)) (λ e. ground arith))
        (λ e. ground arith) in
    let alive : is_live tm.next tm'.live ≡ true = ground arith in
    subst (λ (x : TimerManager). is_live tm.next (delete_timers_for_instance id x).live ≡ true)
      (sym (twice-starts name fn tm r))
      (stop_matching-keeps tm.next id tm'.timers _ lacks
        (stop_matching-keeps tm.next (timeout_prefix id) tm'.timers tm'.live lacks alive))
