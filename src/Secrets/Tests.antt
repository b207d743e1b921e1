-- ===== src/Secrets/Tests.antt =====
-- The theorem on secrets, with a cipher that changes nothing.
use direktiv.Base.{◌≡◌, refl, ℕ, str_eq, ◌&&◌, true, false, List, [], ◌∷◌, some, if◌then◌else◌}
use direktiv.Secrets.{
  Cipher, NamespaceSecret, only, add_secret, get_secret, remove_secret, secret_is, not_found,
}
use direktiv.Secrets.RoundTrip.{secret-kept}

abbrev plain : Cipher ℕ
plain = record {
  usable = true;
  nonce_size = 1;
  nonce = λ k. some (9 ∷ []);
  seal = λ nonce bytes. bytes;
  unseal = λ nonce bytes. some bytes;
}

abbrev no_rows : List (NamespaceSecret ℕ)
no_rows = []

secret-kept_example :
    ((add_secret plain 0 true "n" "s" (1 ∷ []) no_rows).0 ≡ true)
    × (get_secret plain "n" "t" (add_secret plain 0 true "n" "s" (1 ∷ []) no_rows).1 ≡ (
        if str_eq "n" "n" && str_eq "s" "t"
        then secret_is (1 ∷ [])
        else get_secret plain "n" "t" no_rows))
    × (add_secret plain 1 true "n" "s" (2 ∷ []) (add_secret plain 0 true "n" "s" (1 ∷ []) no_rows).1
        ≡ (false, (add_secret plain 0 true "n" "s" (1 ∷ []) no_rows).1))
    × (get_secret plain "n" "s"
          (remove_secret "n" "s" (add_secret plain 0 true "n" "s" (1 ∷ []) no_rows).1)
        ≡ not_found)
unfolding only
secret-kept_example =
    secret-kept plain 0 "n" "s" (9 ∷ []) (1 ∷ []) no_rows plain 1 true (2 ∷ []) "n" "t" refl refl
      refl refl refl
