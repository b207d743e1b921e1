-- ===== src/Model/Workflow/Collect.antt =====
-- The maps from identifiers to states and functions.
use direktiv.Base.{
  about, refuse, false, ◌≡◌, refl, sym, ◌∙◌, ◌⊎◌, inl, inr, String, str_eq, true, List, [], ◌∷◌,
  map, some, ok, Dict, lookup, insert, has, lookup-insert, lookup-insert_self, lookup-insert_ne, In,
  arith, >>-eq-ok, refuse-eq-ok, Bool-cases, eq_of_str_eq,
}
use direktiv.Model.Workflow.{collect, insert_states}
use direktiv.Model.State.{State, get_id}

-- No text stands in the list twice.
abbrev pub Distinct : List String → Type 0
Distinct [] = Unit {0}
Distinct (x ∷ xs) = (¬ In x xs) × Distinct xs

has-insert :
    {V : Type 0} (k j : String) (v : V) (m : Dict V)
    → has j (insert k v m) ≡ true
    → (j ≡ k) ⊎ (has j m ≡ true)
unfolding has
has-insert k j v m h = elim (Bool-cases (str_eq k j)) [
  | inl e ↦ inl (sym (eq_of_str_eq k j e))
  | inr e ↦ inr (ground (arith, lookup-insert k j v m))
]

has-insert_mono :
    {V : Type 0} (k j : String) (v : V) (m : Dict V) → has j m ≡ true → has j (insert k v m) ≡ true
unfolding has
has-insert_mono k j v m h = ground (arith, lookup-insert k j v m)

has-insert_self : {V : Type 0} (k : String) (v : V) (m : Dict V) → has k (insert k v m) ≡ true
unfolding has
has-insert_self k v m = rw (has, lookup-insert_self k v m)

module _ {A : Type 0} (key : A → String) (kind : String) where
  collect-step :
      (x : A) (xs : List A) (m m' : Dict A)
      → collect key kind (x ∷ xs) m ≡ ok m'
      → (has (key x) m ≡ false) × (collect key kind xs (insert (key x) x m) ≡ ok m')
  unfolding collect
  collect-step x xs m m' h =
      let (p, q) =
        >>-eq-ok (refuse (has (key x) m) (about kind (key x)))
          (collect key kind xs (insert (key x) x m)) h in
      (refuse-eq-ok (has (key x) m) (about kind (key x)) p, q)

  -- A key of the map that the loop returns was there before or is an element's.
  pub has-collect :
      (xs : List A) (m m' : Dict A) (k : String)
      → collect key kind xs m ≡ ok m'
      → has k m' ≡ true
      → (has k m ≡ true) ⊎ In k (map key xs)
  unfolding collect
  has-collect [] m m' k h t = inl (ground arith)
  has-collect (x ∷ xs) m m' k h t =
      elim (has-collect xs (insert (key x) x m) m' k (collect-step x xs m m' h).1 t) [
        | inl e ↦ elim (has-insert (key x) k x m e) [ inl q ↦ inr (inl q) | inr q ↦ inl q ]
        | inr q ↦ inr (inr q)
      ]

  has-collect_mono :
      (xs : List A) (m m' : Dict A) (k : String)
      → collect key kind xs m ≡ ok m'
      → has k m ≡ true
      → has k m' ≡ true
  unfolding collect
  has-collect_mono [] m m' k h t = ground arith
  has-collect_mono (x ∷ xs) m m' k h t =
      has-collect_mono xs (insert (key x) x m) m' k (collect-step x xs m m' h).1
        (has-insert_mono (key x) k x m t)

  -- The map that the loop returns has the key of every element.
  pub has-collect_of_In :
      (xs : List A) (m m' : Dict A) (k : String)
      → collect key kind xs m ≡ ok m'
      → In k (map key xs)
      → has k m' ≡ true
  unfolding collect
  has-collect_of_In [] m m' k h i = absurd i
  has-collect_of_In (x ∷ xs) m m' k h (inl e) =
      has-collect_mono xs (insert (key x) x m) m' k (collect-step x xs m m' h).1
        (rw e (has-insert_self (key x) x m))
  has-collect_of_In (x ∷ xs) m m' k h (inr i) =
      has-collect_of_In xs (insert (key x) x m) m' k (collect-step x xs m m' h).1 i

  collect-fresh :
      (xs : List A) (m m' : Dict A) (k : String)
      → collect key kind xs m ≡ ok m'
      → has k m ≡ true
      → ¬ In k (map key xs)
  unfolding collect
  collect-fresh [] m m' k h t i = i
  collect-fresh (x ∷ xs) m m' k h t (inl e) =
      let p = (collect-step x xs m m' h).0 in
      let q : has (key x) m ≡ true = rw (← e) t in absurd (ground arith)
  collect-fresh (x ∷ xs) m m' k h t (inr i) =
      collect-fresh xs (insert (key x) x m) m' k (collect-step x xs m m' h).1
        (has-insert_mono (key x) k x m t) i

  -- If the loop returns a map, no two elements have the same key.
  pub collect-Distinct :
      (xs : List A) (m m' : Dict A) → collect key kind xs m ≡ ok m' → Distinct (map key xs)
  unfolding collect
  collect-Distinct [] m m' h = tt
  collect-Distinct (x ∷ xs) m m' h =
      let rest = (collect-step x xs m m' h).1 in
      (
        collect-fresh xs (insert (key x) x m) m' (key x) rest (has-insert_self (key x) x m),
        collect-Distinct xs (insert (key x) x m) m' rest,
      )

lookup-insert_states_fresh :
    (ss : List State) (m : Dict State) (k : String)
    → ¬ In k (map get_id ss)
    → lookup k (insert_states ss m) ≡ lookup k m
unfolding insert_states
lookup-insert_states_fresh [] m k h = refl
lookup-insert_states_fresh (s ∷ ss) m k h =
    lookup-insert_states_fresh ss (insert (get_id s) s m) k (λ i. h (inr i))
    ∙ lookup-insert_ne (get_id s) k s m (λ e. h (inl (sym e)))

-- Where identifiers are distinct, each state is found under its own.
pub lookup-insert_states :
    (ss : List State) (m : Dict State) (s : State)
    → Distinct (map get_id ss)
    → In s ss
    → lookup (get_id s) (insert_states ss m) ≡ some s
unfolding insert_states
lookup-insert_states [] m s d i = absurd i
lookup-insert_states (x ∷ ss) m s d (inl e) = rw e (
    lookup-insert_states_fresh ss (insert (get_id x) x m) (get_id x) d.0
    ∙ lookup-insert_self (get_id x) x m)
lookup-insert_states (x ∷ ss) m s d (inr i) =
    lookup-insert_states ss (insert (get_id x) x m) s d.1 i

-- What is found under a name carries that name and was there or is one of the states.
pub lookup-insert_states_sound :
    (ss : List State) (m : Dict State) (k : String) (s : State)
    → lookup k (insert_states ss m) ≡ some s
    → (lookup k m ≡ some s) ⊎ (In s ss × (get_id s ≡ k))
unfolding insert_states
lookup-insert_states_sound [] m k s h = inl h
lookup-insert_states_sound (x ∷ ss) m k s h =
    elim (lookup-insert_states_sound ss (insert (get_id x) x m) k s h) [
      | inr (i, e) ↦ inr (inr i, e)
      | inl q ↦ elim (Bool-cases (str_eq (get_id x) k)) [
        | inl e ↦
            let p : some x ≡ some s = ground (arith, lookup-insert (get_id x) k x m) in
            let p' : s ≡ x = ground arith in inr (inl p', rw p' (eq_of_str_eq (get_id x) k e))
        | inr e ↦ inl (ground (arith, lookup-insert (get_id x) k x m))
      ]
    ]
