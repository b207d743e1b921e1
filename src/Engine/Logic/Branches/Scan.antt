-- ===== src/Engine/Logic/Branches/Scan.antt =====
-- What the loop over the branches of a state finds.
use direktiv.Base.{
  append_nil, length-append, ◌⊎◌, ◌<◌, ℕ, suc, ◌+◌, ◌==◌, ◌≡◌, refl, ◌∙◌, sym, ap, String,
  str_eq_ne, str_eq_self, Bool, true, false, ◌&&◌, List, [], ◌∷◌, ◌++◌, length, get_elem?, set, All,
  Option, none, some, inl, inr, arith, ◌≢◌, Bool-cases, if◌then◌else◌,
}
use direktiv.Engine.World.{Branch}
use direktiv.Engine.Logic.Branches.{scan}

unfoldable pub count_complete : List Branch → ℕ
count_complete [] = 0
count_complete (b ∷ bs) = if b.complete then suc (count_complete bs) else count_complete bs

unfoldable pub all_complete : List Branch → Bool
all_complete [] = true
all_complete (b ∷ bs) = b.complete && all_complete bs

-- The branch is not the one of that identifier.
abbrev pub Differs : String → Branch → Type 0
Differs id b = b.id ≢ id

scan-at :
    (id : String) (cs : List Branch) (i j : ℕ) (found : Option ℕ) (n m : ℕ)
    → i ≡ j
    → n ≡ m
    → scan id cs i (found, n) ≡ scan id cs j (found, m)
scan-at id cs i j found n m p q = rw (p, q) refl

scan-Differs :
    (id : String) (bs cs : List Branch) (i : ℕ) (found : Option ℕ) (n : ℕ)
    → All (Differs id) bs
    → scan id (bs ++ cs) i (found, n) ≡ scan id cs (i + length bs) (found, n + count_complete bs)
unfolding scan count_complete
scan-Differs id [] cs i found n h =
    scan-at id cs i (i + 0) found n (n + 0) (ground arith) (ground arith)
scan-Differs id (b ∷ bs) cs i found n h = elim (Bool-cases b.complete) [
  | inl e ↦
      rw (str_eq_ne b.id id h.0, e)
        (scan-Differs id bs cs (suc i) found (suc n) h.1
          ∙ scan-at id cs (suc i + length bs) (i + suc (length bs)) found
              (suc n + count_complete bs) (n + suc (count_complete bs)) (ground arith)
              (ground arith))
  | inr e ↦
      rw (str_eq_ne b.id id h.0, e)
        (scan-Differs id bs cs (suc i) found n h.1
          ∙ scan-at id cs (suc i + length bs) (i + suc (length bs)) found (n + count_complete bs)
              (n + count_complete bs) (ground arith) refl)
]

scan-hit :
    (id : String) (b : Branch) (cs : List Branch) (i n : ℕ)
    → b.id ≡ id
    → b.complete ≡ false
    → scan id (b ∷ cs) i (none, n) ≡ scan id cs (suc i) (some i, n)
unfolding scan
scan-hit id b cs i n p q = rw (p, q, str_eq_self id) refl

-- The one branch of the identifier is found, if it is not complete, with the number of the branches
-- that are.
pub scan-finds :
    (id : String) (before after : List Branch) (b : Branch)
    → b.id ≡ id
    → b.complete ≡ false
    → All (Differs id) before
    → All (Differs id) after
    → scan id (before ++ (b ∷ after)) 0 (none, 0)
      ≡ some (some (length before), count_complete before + count_complete after)
unfolding scan
scan-finds id before after b p q h g =
    scan-Differs id before (b ∷ after) 0 none 0 h
    ∙ scan-at id (b ∷ after) (0 + length before) (length before) none (0 + count_complete before)
        (count_complete before) (ground arith) (ground arith)
    ∙ scan-hit id b after (length before) (count_complete before) p q
    ∙ ap (λ l. scan id l (suc (length before)) (some (length before), count_complete before))
        (sym (append_nil after))
    ∙ scan-Differs id after [] (suc (length before)) (some (length before)) (count_complete before)
        g

-- No branch of that identifier: none is found.
pub scan-misses :
    (id : String) (bs : List Branch)
    → All (Differs id) bs
    → scan id bs 0 (none, 0) ≡ some (none, 0 + count_complete bs)
unfolding scan
scan-misses id bs h =
    ap (λ l. scan id l 0 (none, 0)) (sym (append_nil bs)) ∙ scan-Differs id bs [] 0 none 0 h

-- The saved branches have one of that identifier, and it has not returned before.
pub record Awaits (id : String) (before : List Branch) (b : Branch) (after : List Branch)
    : Type 0 where
  pub named : b.id ≡ id
  pub incomplete : b.complete ≡ false
  pub others_before : All (Differs id) before
  pub others_after : All (Differs id) after

pub set-append :
    {A : Type 0} (bs cs : List A) (b x : A) → set (bs ++ (b ∷ cs)) (length bs) x ≡ bs ++ (x ∷ cs)
set-append [] cs b x = refl
set-append (a ∷ bs) cs b x = ap (λ l. a ∷ l) (set-append bs cs b x)

pub get_elem?-append :
    {A : Type 0} (bs cs : List A) (b : A) → get_elem? (bs ++ (b ∷ cs)) (length bs) ≡ some b
get_elem?-append [] cs b = refl
get_elem?-append (a ∷ bs) cs b = get_elem?-append bs cs b

count-cases :
    (bs : List Branch)
    → ((all_complete bs ≡ true) × (count_complete bs ≡ length bs))
      ⊎ ((all_complete bs ≡ false) × (count_complete bs < length bs))
unfolding count_complete all_complete
count-cases [] = inl (refl, refl)
count-cases (b ∷ bs) = let ih = count-cases bs in ground arith

-- The state is ready after the branch `b` exactly when the others are complete.
pub ready-all_complete :
    (before after : List Branch) (b : Branch)
    → (suc (count_complete before + count_complete after) == length (before ++ (b ∷ after)))
      ≡ (all_complete before && all_complete after)
ready-all_complete before after b =
    let p = count-cases before in
    let q = count-cases after in rw (length-append before (b ∷ after)) (ground arith)
