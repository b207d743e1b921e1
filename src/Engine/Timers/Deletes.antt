-- ===== src/Engine/Timers/Deletes.antt =====
-- What a deletion of timers leaves: which items, and which timers that can still fire.
use direktiv.Base.{
  ℕ, String, str_eq, str_eq_self, eq_of_str_eq, ◌==◌, ◌≡◌, refl, ◌∙◌, sym, subst, Bool, true, false,
  not, ◌&&◌, ◌||◌, List, [], ◌∷◌, ◌++◌, All, Option, none, some, inl, inr, arith, Bool-cases,
  if◌then◌else◌, Dict, lookup, delete, lookup-delete,
}
use direktiv.Engine.Timers.{
  TimerItem, TimerManager, is_registered, stop, stop_item, has_prefix, stop_matching, matching,
  delete_each, timeout_prefix, delete_timers_for_instance,
}

-- Each item is in the map under its own name.
abbrev pub IsNamed : Dict TimerItem → Type 0
IsNamed m = All (λ (e : String × TimerItem). e.1.name ≡ e.0) m

lookup-delete_each :
    (k : String) (keys : List String) (m : Dict TimerItem)
    → lookup k (delete_each keys m) ≡ (if is_registered k keys then none else lookup k m)
unfolding delete_each is_registered
lookup-delete_each k [] m = refl
lookup-delete_each k (key ∷ keys) m =
    let ih = lookup-delete_each k keys (delete key m) in
    let here = lookup-delete key k m in ground (arith, ih, here)

registered-append :
    (k : String) (xs ys : List String)
    → is_registered k (xs ++ ys) ≡ (is_registered k xs || is_registered k ys)
unfolding is_registered
registered-append k [] ys = refl
registered-append k (x ∷ xs) ys = let ih = registered-append k xs ys in ground arith

-- An item of the map that has the prefix is collected, and only names that have it are.
registered-matching :
    (prefix k : String) (ti : TimerItem) (m : Dict TimerItem)
    → lookup k m ≡ some ti
    → has_prefix ti.name prefix ≡ true
    → is_registered ti.name (matching prefix m) ≡ true
unfolding matching is_registered lookup
registered-matching prefix k ti [] h p = absurd (ground arith)
registered-matching prefix k ti ((j, t) ∷ m) h p = elim (Bool-cases (str_eq j k)) [
  | inl e ↦ let same : t ≡ ti = ground arith in rw (same, p, str_eq_self ti.name) refl
  | inr e ↦
      let ih = registered-matching prefix k ti m (ground arith) p in
      elim (Bool-cases (has_prefix t.name prefix)) [ inl q ↦ rw q (ground arith) | inr q ↦ rw q ih ]
]

matching-has_prefix :
    (prefix k : String) (m : Dict TimerItem)
    → is_registered k (matching prefix m) ≡ true
    → has_prefix k prefix ≡ true
unfolding matching is_registered
matching-has_prefix prefix k [] h = absurd (ground arith)
matching-has_prefix prefix k ((j, t) ∷ m) h = elim (Bool-cases (has_prefix t.name prefix)) [
  | inl q ↦ elim (Bool-cases (str_eq t.name k)) [
    | inl e ↦ subst (λ x. has_prefix x prefix ≡ true) (eq_of_str_eq t.name k e) q
    | inr e ↦ matching-has_prefix prefix k m (ground arith)
  ]
  | inr q ↦ matching-has_prefix prefix k m (ground arith)
]

lookup-named :
    (k : String) (ti : TimerItem) (m : Dict TimerItem)
    → IsNamed m
    → lookup k m ≡ some ti
    → ti.name ≡ k
unfolding lookup
lookup-named k ti [] n h = absurd (ground arith)
lookup-named k ti ((j, t) ∷ m) n h = elim (Bool-cases (str_eq j k)) [
  | inl e ↦
      let same : t ≡ ti = ground arith in
      subst (λ (x : TimerItem). x.name ≡ k) same (n.0 ∙ eq_of_str_eq j k e)
  | inr e ↦ lookup-named k ti m n.1 (ground arith)
]

-- The names that the deletion of an instance collects.
abbrev doomed : String → Dict TimerItem → List String
doomed id m = matching (timeout_prefix id) m ++ matching id m

-- Whether a name of the map is collected is whether it has the prefix.
is_matching :
    (prefix k : String) (ti : TimerItem) (m : Dict TimerItem)
    → IsNamed m
    → lookup k m ≡ some ti
    → is_registered k (matching prefix m) ≡ has_prefix k prefix
is_matching prefix k ti m n h =
    let named = lookup-named k ti m n h in
    elim (Bool-cases (has_prefix k prefix)) [
      | inl p ↦
          subst (λ x. is_registered x (matching prefix m) ≡ true) named
            (registered-matching prefix k ti m h
              (subst (λ x. has_prefix x prefix ≡ true) (sym named) p))
          ∙ sym p
      | inr p ↦ elim (Bool-cases (is_registered k (matching prefix m))) [
        | inl q ↦ let r = matching-has_prefix prefix k m q in absurd (ground arith)
        | inr q ↦ q ∙ sym p
      ]
    ]

is_doomed-some :
    (id k : String) (ti : TimerItem) (m : Dict TimerItem)
    → IsNamed m
    → lookup k m ≡ some ti
    → is_registered k (doomed id m) ≡ (has_prefix k (timeout_prefix id) || has_prefix k id)
is_doomed-some id k ti m n h =
    registered-append k (matching (timeout_prefix id) m) (matching id m)
    ∙ rw (is_matching (timeout_prefix id) k ti m n h, is_matching id k ti m n h) refl

lookup-cases :
    (k : String) (m : Dict TimerItem) (P : Option TimerItem → Type 0)
    → (lookup k m ≡ none → P none)
    → ((ti : TimerItem) → lookup k m ≡ some ti → P (some ti))
    → P (lookup k m)
lookup-cases k m P f g = by_cases (lookup k m) refl
  where
    by_cases : (o : Option TimerItem) → lookup k m ≡ o → P o
    by_cases none e = f e
    by_cases (some ti) e = g ti e

if_none : (b : Bool) (o : Option TimerItem) → o ≡ none → (if b then none else o) ≡ none
if_none b o e = ground arith

-- After the timers of an instance are deleted, the map has exactly the items that it had before
-- and whose names start neither with the identifier of the instance nor with "timeout:" and that
-- identifier.
pub delete_timers-lookup :
    (id k : String) (tm : TimerManager)
    → IsNamed tm.timers
    → lookup k (delete_timers_for_instance id tm).timers
      ≡ (if has_prefix k (timeout_prefix id) || has_prefix k id then none else lookup k tm.timers)
unfolding delete_timers_for_instance
delete_timers-lookup id k tm n =
    lookup-delete_each k (doomed id tm.timers) tm.timers
    ∙ lookup-cases k tm.timers
        (λ o.
          (if is_registered k (doomed id tm.timers) then none else o)
          ≡ (if has_prefix k (timeout_prefix id) || has_prefix k id then none else o))
        (λ e.
          if_none (is_registered k (doomed id tm.timers)) none refl
          ∙ sym (if_none (has_prefix k (timeout_prefix id) || has_prefix k id) none refl))
        (λ ti e. rw (is_doomed-some id k ti tm.timers n e) refl)

-- The timer of that number can still fire.
unfoldable pub is_live : ℕ → List ℕ → Bool
is_live h [] = false
is_live h (x ∷ xs) = (x == h) || is_live h xs

pub is_live-stop :
    (h x : ℕ) (live : List ℕ) → is_live h (stop x live) ≡ (not (x == h) && is_live h live)
unfolding is_live stop
is_live-stop h x [] = ground arith
is_live-stop h x (y ∷ live) = let ih = is_live-stop h x live in ground arith

is_live-stop_item :
    (h : ℕ) (ti : TimerItem) (live : List ℕ)
    → is_live h live ≡ false
    → is_live h (stop_item ti live) ≡ false
is_live-stop_item h ti live e = by_handle ti.handle
  where
    by_handle : (o : Option ℕ) → is_live h (elim o [ none ↦ live | some x ↦ stop x live ]) ≡ false
    by_handle none = e
    by_handle (some x) = let p = is_live-stop h x live in ground arith

dead-stays :
    (h : ℕ) (prefix : String) (m : Dict TimerItem) (live : List ℕ)
    → is_live h live ≡ false
    → is_live h (stop_matching prefix m live) ≡ false
unfolding stop_matching
dead-stays h prefix [] live e = e
dead-stays h prefix ((j, t) ∷ m) live e = elim (Bool-cases (has_prefix t.name prefix)) [
  | inl p ↦ rw p (dead-stays h prefix m (stop_item t live) (is_live-stop_item h t live e))
  | inr p ↦ rw p (dead-stays h prefix m live e)
]

stop_item-dead :
    (h : ℕ) (ti : TimerItem) (live : List ℕ)
    → ti.handle ≡ some h
    → is_live h (stop_item ti live) ≡ false
stop_item-dead h ti live e =
    let p = is_live-stop h h live in
    subst (λ (o : Option ℕ). is_live h (elim o [ none ↦ live | some x ↦ stop x live ]) ≡ false)
      (sym e) (ground arith)

stops-matching :
    (h : ℕ) (prefix k : String) (ti : TimerItem) (m : Dict TimerItem) (live : List ℕ)
    → lookup k m ≡ some ti
    → ti.handle ≡ some h
    → has_prefix ti.name prefix ≡ true
    → is_live h (stop_matching prefix m live) ≡ false
unfolding stop_matching lookup
stops-matching h prefix k ti [] live e s p = absurd (ground arith)
stops-matching h prefix k ti ((j, t) ∷ m) live e s p = elim (Bool-cases (str_eq j k)) [
  | inl q ↦
      let same : t ≡ ti = ground arith in
      rw (same, p) (dead-stays h prefix m (stop_item ti live) (stop_item-dead h ti live s))
  | inr q ↦ stops-matching h prefix k ti m _ (ground arith) s p
]

-- After the timers of an instance are deleted, no timer can fire that an item of the map held
-- whose name starts with the identifier of the instance, or with "timeout:" and that identifier.
delete_timers-stops :
    (id k : String) (ti : TimerItem) (h : ℕ) (tm : TimerManager)
    → lookup k tm.timers ≡ some ti
    → ti.handle ≡ some h
    → (has_prefix ti.name (timeout_prefix id) || has_prefix ti.name id) ≡ true
    → is_live h (delete_timers_for_instance id tm).live ≡ false
unfolding delete_timers_for_instance
delete_timers-stops id k ti h tm e s p = elim (Bool-cases (has_prefix ti.name id)) [
  | inl q ↦ stops-matching h id k ti tm.timers _ e s q
  | inr q ↦
      dead-stays h id tm.timers _
        (stops-matching h (timeout_prefix id) k ti tm.timers tm.live e s (ground arith))
]
