-- ===== src/Model/Enums/RoundTrip.antt =====
-- Printing and parsing the enumerations of pkg/model/enums.go.
use direktiv.Base.{
  subst, zero, ℕ, suc, ◌+◌, ◌≡◌, refl, ◌≢◌, String, str_eq, List, [], ◌∷◌, some, get_elem?, ok,
  Bool-cases, inl, inr, eq_of_str_eq, arith,
}
use direktiv.Model.Enums.{index_from, parse_name}
use direktiv.Model.StateType

-- What `index_from` finds is in the table, at the place that it gives.
index_from-get_elem? :
    (i : ℕ) (s : String) (table : List String) (k : ℕ)
    → index_from i s table ≡ some k
    → (d : ℕ) × (k ≡ i + d) × (get_elem? table d ≡ some s)
unfolding index_from
index_from-get_elem? i s [] k h = absurd (ground arith)
index_from-get_elem? i s (str ∷ table) k h = elim (Bool-cases (str_eq str s)) [
  | inl e ↦ (0, ground arith, rw (eq_of_str_eq str s e))
  | inr e ↦
      let (d, p, q) = index_from-get_elem? (suc i) s table k (ground arith) in
      (suc d, ground arith, q)
]

parse_name-get_elem? :
    (kind : String) (table : List String) (s : String) (k : ℕ)
    → parse_name kind table s ≡ ok k
    → get_elem? table k ≡ some s
unfolding parse_name
parse_name-get_elem? kind table s k h =
    let (d, p, q) = index_from-get_elem? 0 s table k (ground arith) in
    let e : k ≡ d = ground arith in rw e q

-- Whatever text the parser of state types accepts, the accepted type prints as that text.
name-parse : (s : String) (k : ℕ) → StateType.parse s ≡ ok k → StateType.name k ≡ some s
unfolding StateType.parse StateType.name
name-parse s k = parse_name-get_elem? "type" StateType.strings s k

some-eq : (a b : String) → some a ≡ some b → a ≡ b
some-eq a b h = ground arith

-- By cases on the sixteen types; `consume` is the one that prints like another.
read_back :
    (t : ℕ) (s : String)
    → StateType.name t ≡ some s
    → (t ≢ StateType.consume → StateType.parse s ≡ ok t)
      × (t ≡ StateType.consume → StateType.parse s ≡ ok StateType.consume_event)
unfolding StateType.parse StateType.name
read_back zero s h =
    let e = some-eq _ _ h in
    (λ ne. subst (λ x. StateType.parse x ≡ ok 0) e refl, λ eq. absurd (omega arith))
read_back (suc zero) s h =
    let e = some-eq _ _ h in
    (λ ne. subst (λ x. StateType.parse x ≡ ok 1) e refl, λ eq. absurd (omega arith))
read_back (suc (suc zero)) s h =
    let e = some-eq _ _ h in
    (λ ne. subst (λ x. StateType.parse x ≡ ok 2) e refl, λ eq. absurd (omega arith))
read_back (suc (suc (suc zero))) s h =
    let e = some-eq _ _ h in
    (λ ne. subst (λ x. StateType.parse x ≡ ok 3) e refl, λ eq. absurd (omega arith))
read_back (suc (suc (suc (suc zero)))) s h =
    let e = some-eq _ _ h in
    (λ ne. subst (λ x. StateType.parse x ≡ ok 4) e refl, λ eq. absurd (omega arith))
read_back (suc (suc (suc (suc (suc zero))))) s h =
    let e = some-eq _ _ h in
    (λ ne. subst (λ x. StateType.parse x ≡ ok 5) e refl, λ eq. absurd (omega arith))
read_back (suc (suc (suc (suc (suc (suc zero)))))) s h =
    let e = some-eq _ _ h in
    (λ ne. subst (λ x. StateType.parse x ≡ ok 6) e refl, λ eq. absurd (omega arith))
read_back (suc (suc (suc (suc (suc (suc (suc zero))))))) s h =
    let e = some-eq _ _ h in
    (λ ne. subst (λ x. StateType.parse x ≡ ok 7) e refl, λ eq. absurd (omega arith))
read_back (suc (suc (suc (suc (suc (suc (suc (suc zero)))))))) s h =
    let e = some-eq _ _ h in
    (λ ne. subst (λ x. StateType.parse x ≡ ok 8) e refl, λ eq. absurd (omega arith))
read_back (suc (suc (suc (suc (suc (suc (suc (suc (suc zero))))))))) s h =
    let e = some-eq _ _ h in
    (λ ne. subst (λ x. StateType.parse x ≡ ok 9) e refl, λ eq. absurd (omega arith))
read_back (suc (suc (suc (suc (suc (suc (suc (suc (suc (suc zero)))))))))) s h =
    let e = some-eq _ _ h in
    (λ ne. subst (λ x. StateType.parse x ≡ ok 10) e refl, λ eq. absurd (omega arith))
read_back (suc (suc (suc (suc (suc (suc (suc (suc (suc (suc (suc zero))))))))))) s h =
    let e = some-eq _ _ h in
    (λ ne. subst (λ x. StateType.parse x ≡ ok 11) e refl, λ eq. absurd (omega arith))
read_back (suc (suc (suc (suc (suc (suc (suc (suc (suc (suc (suc (suc zero)))))))))))) s h =
    let e = some-eq _ _ h in
    (
      λ ne. subst (λ x. StateType.parse x ≡ ok 12) e (absurd (ne refl)),
      λ eq. subst (λ x. StateType.parse x ≡ ok 1) e refl,
    )
read_back (suc (suc (suc (suc (suc (suc (suc (suc (suc (suc (suc (suc (suc zero))))))))))))) s h =
    let e = some-eq _ _ h in
    (λ ne. subst (λ x. StateType.parse x ≡ ok 13) e refl, λ eq. absurd (omega arith))
read_back (suc (suc (suc (suc (suc (suc (suc (suc (suc (suc (suc (suc (suc (suc zero)))))))))))))) s
      h =
    let e = some-eq _ _ h in
    (λ ne. subst (λ x. StateType.parse x ≡ ok 14) e refl, λ eq. absurd (omega arith))
read_back
      (suc (suc (suc (suc (suc (suc (suc (suc (suc (suc (suc (suc (suc (suc (suc zero)))))))))))))))
      s h =
    let e = some-eq _ _ h in
    (λ ne. subst (λ x. StateType.parse x ≡ ok 15) e refl, λ eq. absurd (omega arith))
read_back
      (suc
        (suc (suc (suc (suc (suc (suc (suc (suc (suc (suc (suc (suc (suc (suc (suc t))))))))))))))))
      s h =
    absurd (ground arith)

-- A state type other than `consume` is read back from what it prints as; `consume` is not, since it
-- prints like `consume_event`.
parse-name :
    (t : ℕ) (s : String)
    → t ≢ StateType.consume
    → StateType.name t ≡ some s
    → StateType.parse s ≡ ok t
parse-name t s ne h = (read_back t s h).0 ne
