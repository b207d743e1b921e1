-- ===== src/Secrets/RoundTrip.antt =====
-- A secret that is added is read again, until it is removed.
use direktiv.Base.{
  ℕ, ltb, length, length-append, String, str_eq, str_eq_self, Bool, true, false, ◌&&◌, Bool-cases,
  List, [], ◌∷◌, ◌++◌, none, some, if◌then◌else◌, take, drop, ◌≡◌, ◌≢◌, refl, ap, sym, ◌∙◌, subst,
  inl, inr, arith, eq_iff,
}
use direktiv.Secrets.{
  Cipher, NamespaceSecret, Found, one, nothing_found, several, secret_is, not_found, get_failed,
  crashed, is_at, with_row, only, encrypt_data, decrypt_data, sealed, unsealed, stored_bytes, saved,
  unless_one, add_secret, read, get_secret, remove_secret,
}

module _ {B : Type 0} where
  take-append : (xs ys : List B) → take (length xs) (xs ++ ys) ≡ xs
  take-append [] ys = refl
  take-append (x ∷ xs) ys = ap (λ t. x ∷ t) (take-append xs ys)

  drop-append : (xs ys : List B) → drop (length xs) (xs ++ ys) ≡ ys
  drop-append [] ys = refl
  drop-append (x ∷ xs) ys = drop-append xs ys

  -- What is encrypted is decrypted, if the cipher opens what it has sealed.
  decrypt-encrypt :
      (c : Cipher B) (nonce secret : List B)
      → c.usable ≡ true
      → length nonce ≡ c.nonce_size
      → c.unseal nonce (c.seal nonce secret) ≡ some secret
      → decrypt_data c (nonce ++ c.seal nonce secret) ≡ secret_is secret
  unfolding decrypt_data
  decrypt-encrypt c nonce secret u n o =
      let bytes = nonce ++ c.seal nonce secret in
      let longer = length-append nonce (c.seal nonce secret) in
      let e : ltb (length bytes) c.nonce_size ≡ false = ground (arith, n, longer) in
      ap
        (λ b.
          if b
          then (if ltb (length bytes) c.nonce_size
              then crashed
              else unsealed (c.unseal (take c.nonce_size bytes) (drop c.nonce_size bytes)))
          else get_failed)
        u
      ∙ ap
          (λ b.
            if b
            then crashed
            else unsealed (c.unseal (take c.nonce_size bytes) (drop c.nonce_size bytes)))
          e
      ∙ ap (λ k. unsealed (c.unseal (take k bytes) (drop k bytes))) (sym n)
      ∙ ap (λ t. unsealed (c.unseal t (drop (length nonce) bytes)))
          (take-append nonce (c.seal nonce secret))
      ∙ ap (λ t. unsealed (c.unseal nonce t)) (drop-append nonce (c.seal nonce secret))
      ∙ ap unsealed o

  with_row-found : (r : NamespaceSecret B) (o : Found B) → with_row r o ≢ nothing_found
  with_row-found r nothing_found e = cc
  with_row-found r (one other) e = cc
  with_row-found r several e = cc

  -- The last row is looked up like the others.
  only-append :
      (ns name : String) (row : NamespaceSecret B) (rows : List (NamespaceSecret B)) (b : Bool)
      → is_at ns name row ≡ b
      → (b ≡ true → only ns name rows ≡ nothing_found)
      → only ns name (rows ++ (row ∷ [])) ≡ (if b then one row else only ns name rows)
  unfolding only
  only-append ns name row [] b e h = ap (λ t. if t then one row else nothing_found) e
  only-append ns name row (r ∷ rows) false e h =
      ap (λ o. if is_at ns name r then with_row r o else o)
        (only-append ns name row rows false e (λ f. absurd (cc)))
  only-append ns name row (r ∷ rows) true e h = elim (Bool-cases (is_at ns name r)) [
    | inl f ↦ absurd (
        with_row-found r (only ns name rows) (
          sym (ap (λ b. if b then with_row r (only ns name rows) else only ns name rows) f)
          ∙ h refl))
    | inr f ↦
        let others : only ns name rows ≡ nothing_found =
          sym (ap (λ b. if b then with_row r (only ns name rows) else only ns name rows) f)
          ∙ h refl in
        ap
          (λ b.
            if b
            then with_row r (only ns name (rows ++ (row ∷ [])))
            else only ns name (rows ++ (row ∷ [])))
          f
        ∙ only-append ns name row rows true e (λ _. others)
  ]

  remove-only :
      (ns name : String) (rows : List (NamespaceSecret B))
      → only ns name (remove_secret ns name rows) ≡ nothing_found
  unfolding only remove_secret
  remove-only ns name [] = refl
  remove-only ns name (r ∷ rows) = elim (Bool-cases (is_at ns name r)) [
    | inl e ↦
        ap
          (λ b.
            only ns name (if b then remove_secret ns name rows else r ∷ remove_secret ns name rows))
          e
        ∙ remove-only ns name rows
    | inr e ↦
        ap
          (λ b.
            only ns name (if b then remove_secret ns name rows else r ∷ remove_secret ns name rows))
          e
        ∙ ap
            (λ b.
              if b
              then with_row r (only ns name (remove_secret ns name rows))
              else only ns name (remove_secret ns name rows))
            e
        ∙ remove-only ns name rows
  ]

read-if :
    {B : Type 0} (c : Cipher B) (b : Bool) (x y : Found B)
    → read c (if b then x else y) ≡ (if b then read c x else read c y)
read-if c true x y = refl
read-if c false x y = refl

-- If the key is accepted, the random source gives a nonce, the cipher opens what it has sealed with
-- it, and the database answers, then a secret that a namespace does not have yet is added without an
-- error. Afterwards it is read as it was, while the secrets under other names and in other
-- namespaces read as before; a second one of its name is refused, whatever the cipher does, and
-- changes nothing; and once it is removed, it is not found.
pub secret-kept :
    {B : Type 0} (c : Cipher B) (k : ℕ) (ns name : String) (nonce secret : List B)
    (rows : List (NamespaceSecret B)) (other : Cipher B) (j : ℕ) (answer : Bool) (second : List B)
    (ns' name' : String)
    → c.usable ≡ true
    → c.nonce k ≡ some nonce
    → length nonce ≡ c.nonce_size
    → c.unseal nonce (c.seal nonce secret) ≡ some secret
    → only ns name rows ≡ nothing_found
    → ((add_secret c k true ns name secret rows).0 ≡ true)
      × (get_secret c ns' name' (add_secret c k true ns name secret rows).1 ≡ (
          if str_eq ns ns' && str_eq name name'
          then secret_is secret
          else get_secret c ns' name' rows))
      × (add_secret other j answer ns name second (add_secret c k true ns name secret rows).1
          ≡ (false, (add_secret c k true ns name secret rows).1))
      × (get_secret c ns name (remove_secret ns name (add_secret c k true ns name secret rows).1)
          ≡ not_found)
unfolding add_secret get_secret encrypt_data
secret-kept {B} c k ns name nonce secret rows other j answer second ns' name' u n size opens free =
    let row : NamespaceSecret B = record {
      ns = ns;
      name = name;
      secret = nonce ++ c.seal nonce secret;
    } in
    let after = rows ++ (row ∷ []) in
    let encrypted : encrypt_data c k secret ≡ some (nonce ++ c.seal nonce secret) =
      ap (λ b. if b then sealed c secret (c.nonce k) else none) u ∙ ap (sealed c secret) n in
    let added : add_secret c k true ns name secret rows ≡ (true, after) =
      ap
        (λ o.
          unless_one o
            (saved true
              (record { ns = ns; name = name; secret = stored_bytes (encrypt_data c k secret) })
              rows)
            rows)
        free
      ∙ ap (λ o. saved true (record { ns = ns; name = name; secret = stored_bytes o }) rows)
          encrypted in
    let rows_after = ap (λ (r : Bool × List (NamespaceSecret B)). r.1) added in
    let there = str_eq ns ns' && str_eq name name' in
    let found : only ns' name' after ≡ (if there then one row else only ns' name' rows) =
      only-append ns' name' row rows there refl (λ e.
        let p : ns ≡ ns' = ground (arith, eq_iff ns ns', eq_iff name name') in
        let q : name ≡ name' = ground (arith, eq_iff ns ns', eq_iff name name') in
        subst (λ x. only x name' rows ≡ nothing_found) p
          (subst (λ y. only ns y rows ≡ nothing_found) q free)) in
    let here : only ns name after ≡ one row =
      only-append ns name row rows true (rw (str_eq_self ns, str_eq_self name) refl) (λ _. free) in
    (
      ap (λ (r : Bool × List (NamespaceSecret B)). r.0) added,
      ap (get_secret c ns' name') rows_after
          ∙ ap (read c) found
          ∙ read-if c there (one row) (only ns' name' rows)
          ∙ ap (λ z. if there then z else read c (only ns' name' rows))
              (decrypt-encrypt c nonce secret u size opens),
      subst
          (λ (r : List (NamespaceSecret B)).
            add_secret other j answer ns name second r ≡ (false, r))
          (sym rows_after)
          (ap
            (λ o.
              unless_one o
                (saved answer
                  (record {
                    ns = ns;
                    name = name;
                    secret = stored_bytes (encrypt_data other j second);
                  })
                  after)
                after)
            here),
      ap (λ r. get_secret c ns name (remove_secret ns name r)) rows_after
          ∙ ap (read c) (remove-only ns name after),
    )
