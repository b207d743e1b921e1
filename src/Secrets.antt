-- ===== src/Secrets.antt =====
-- pkg/secrets/handler/db.go: the secrets of namespaces, which are kept encrypted in a table. `B`
-- is the type of bytes.
pub mod RoundTrip
mod Tests
use direktiv.Base.{
  ℕ, suc, ltb, length, String, str_eq, Bool, true, false, ◌&&◌, List, [], ◌∷◌, ◌++◌, Option, none,
  some, if◌then◌else◌, take, drop,
}

-- The cipher AES in the mode GCM with the key of the handler, and the random bytes. `nonce k` is
-- what the k-th read of the random source gives, none if it fails; `usable` says that the key is
-- accepted.
pub record Cipher (B : Type 0) : Type 0 where
  pub usable : Bool
  pub nonce_size : ℕ
  pub nonce : ℕ → Option (List B)
  pub seal : List B → List B → List B
  pub unseal : List B → List B → Option (List B)

-- A row of the table of secrets.
pub record NamespaceSecret (B : Type 0) : Type 0 where
  pub ns : String
  pub name : String
  pub secret : List B

-- `Only`: the one row that there is, or whether there is none or more than one.
pub data Found (B : Type 0) : Type 0 where
  one : NamespaceSecret B → Found B
  nothing_found : Found B
  several : Found B

pub data Answer (B : Type 0) : Type 0 where
  secret_is : List B → Answer B
  not_found : Answer B
  get_failed : Answer B
  crashed : Answer B

module _ {B : Type 0} where
  abbrev pub is_at : String → String → NamespaceSecret B → Bool
  is_at ns name row = str_eq row.ns ns && str_eq row.name name

  abbrev pub with_row : NamespaceSecret B → Found B → Found B
  with_row row nothing_found = one row
  with_row row (one other) = several
  with_row row several = several

  unfoldable pub only : String → String → List (NamespaceSecret B) → Found B
  only ns name [] = nothing_found
  only ns name (row ∷ rows) =
      let rest = only ns name rows in if is_at ns name row then with_row row rest else rest

  -- `encryptData`: the nonce stands before what the cipher gives.
  abbrev pub sealed : Cipher B → List B → Option (List B) → Option (List B)
  sealed c bytes none = none
  sealed c bytes (some nonce) = some (nonce ++ c.seal nonce bytes)

  unfoldable pub encrypt_data : Cipher B → ℕ → List B → Option (List B)
  encrypt_data c k bytes = if c.usable then sealed c bytes (c.nonce k) else none

  -- `decryptData`: bytes that are shorter than a nonce make the slice panic.
  abbrev pub unsealed : Option (List B) → Answer B
  unsealed none = get_failed
  unsealed (some bytes) = secret_is bytes

  unfoldable pub decrypt_data : Cipher B → List B → Answer B
  decrypt_data c bytes =
      if c.usable
      then (if ltb (length bytes) c.nonce_size
          then crashed
          else unsealed (c.unseal (take c.nonce_size bytes) (drop c.nonce_size bytes)))
      else get_failed

  -- What is stored: after a failed encryption, no bytes, since the test for its error is one for the
  -- row that was looked up, which is nil there.
  abbrev pub stored_bytes : Option (List B) → List B
  stored_bytes none = []
  stored_bytes (some bytes) = bytes

  abbrev pub saved :
      Bool → NamespaceSecret B → List (NamespaceSecret B) → Bool × List (NamespaceSecret B)
  saved true row rows = (true, rows ++ (row ∷ []))
  saved false row rows = (false, rows)

  abbrev pub unless_one :
      Found B
      → Bool × List (NamespaceSecret B)
      → List (NamespaceSecret B)
      → Bool × List (NamespaceSecret B)
  unless_one (one row) added rows = (false, rows)
  unless_one nothing_found added rows = added
  unless_one several added rows = added

  -- `AddSecret`: whether it returns no error, and the rows. `answer` is that of the insertion; an
  -- error of the look-up counts as no row.
  unfoldable pub add_secret :
      Cipher B
      → ℕ
      → Bool
      → String
      → String
      → List B
      → List (NamespaceSecret B)
      → Bool × List (NamespaceSecret B)
  unfolding only encrypt_data
  add_secret c k answer ns name secret rows =
      unless_one (only ns name rows)
        (saved answer
          (record { ns = ns; name = name; secret = stored_bytes (encrypt_data c k secret) }) rows)
        rows

  abbrev pub read : Cipher B → Found B → Answer B
  read c nothing_found = not_found
  read c several = get_failed
  read c (one row) = decrypt_data c row.secret

  -- `GetSecret`.
  unfoldable pub get_secret : Cipher B → String → String → List (NamespaceSecret B) → Answer B
  unfolding only decrypt_data
  get_secret c ns name rows = read c (only ns name rows)

  -- `GetSecrets`.
  unfoldable pub get_secrets : String → List (NamespaceSecret B) → List String
  get_secrets ns [] = []
  get_secrets ns (row ∷ rows) =
      let rest = get_secrets ns rows in if str_eq row.ns ns then row.name ∷ rest else rest

  -- `RemoveSecret`.
  unfoldable pub remove_secret :
      String → String → List (NamespaceSecret B) → List (NamespaceSecret B)
  remove_secret ns name [] = []
  remove_secret ns name (row ∷ rows) =
      let rest = remove_secret ns name rows in if is_at ns name row then rest else row ∷ rest

  -- `RemoveSecrets`.
  unfoldable pub remove_secrets : String → List (NamespaceSecret B) → List (NamespaceSecret B)
  remove_secrets ns [] = []
  remove_secrets ns (row ∷ rows) =
      let rest = remove_secrets ns rows in if str_eq row.ns ns then rest else row ∷ rest
