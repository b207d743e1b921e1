-- ===== src/Jqer/Strings.antt =====
-- What pkg/jqer uses of Go's packages strings and sort. A text is the list of its characters, and
-- positions in it count bytes, as in Go.
use Prim.Native.Char.{Char, code, len_utf8}
use direktiv.Base.{
  ℕ, zero, suc, ◌+◌, ◌==◌, ltb, leb, String, Bool, true, false, ◌&&◌, ◌||◌, List, [], ◌∷◌, Option,
  none, some, if◌then◌else◌, Dict,
}

abbrev pub Text : Type 0
Text = List Char

abbrev pub chars : String → Text
chars String.[] = []
chars (String.◌∷◌ c s) = c ∷ chars s

abbrev pub bytes : Text → ℕ
bytes [] = 0
bytes (c ∷ s) = len_utf8 c + bytes s

abbrev pub is_nil : Text → Bool
is_nil [] = true
is_nil (c ∷ s) = false

abbrev pub drop : ℕ → Text → Text
drop zero s = s
drop (suc n) [] = []
drop (suc n) (c ∷ s) = drop n s

abbrev pub take : ℕ → Text → Text
take zero s = []
take (suc n) [] = []
take (suc n) (c ∷ s) = c ∷ take n s

-- All but the last character.
abbrev pub init : Text → Text
init [] = []
init (c ∷ []) = []
init (c ∷ d ∷ s) = c ∷ init (d ∷ s)

abbrev pub same : Char → Char → Bool
same c d = code c == code d

-- `strings.HasPrefix(s, p)`.
unfoldable pub has_prefix : Text → Text → Bool
has_prefix [] s = true
has_prefix (c ∷ p) [] = false
has_prefix (c ∷ p) (d ∷ s) = same c d && has_prefix p s

-- `strings.HasSuffix(s, p)`.
unfoldable pub has_suffix : Text → Text → Bool
unfolding has_prefix
has_suffix p [] = is_nil p
has_suffix p (c ∷ s) = (has_prefix p (c ∷ s) && has_prefix (c ∷ s) p) || has_suffix p s

abbrev pub past : Char → Option (Text × Text) → Option (Text × Text)
past c none = none
past c (some (pre, here)) = some (c ∷ pre, here)

-- `strings.Index(s, p)`: the text before the first occurrence, and the text from there on.
unfoldable pub find : Text → Text → Option (Text × Text)
unfolding has_prefix
find p [] = if is_nil p then some ([], []) else none
find p (c ∷ s) = if has_prefix p (c ∷ s) then some ([], c ∷ s) else past c (find p s)

-- `unicode.IsSpace`.
unfoldable pub is_space : Char → Bool
is_space c =
    let n = code c in
    (leb 9 n && leb n 13)
    || (n == 32
        || (n == 0x85
            || (n == 0xA0
                || (n == 0x1680
                    || ((leb 0x2000 n && leb n 0x200A)
                        || (n == 0x2028
                            || (n == 0x2029 || (n == 0x202F || (n == 0x205F || n == 0x3000)))))))))

unfoldable pub trim_left : Text → Text
unfolding is_space
trim_left [] = []
trim_left (c ∷ s) = if is_space c then trim_left s else c ∷ s

unfoldable pub trim_right : Text → Text
unfolding is_space
trim_right [] = []
trim_right (c ∷ s) = let rest = trim_right s in if is_space c && is_nil rest then [] else c ∷ rest

-- `strings.TrimSpace`.
unfoldable pub trim_space : Text → Text
unfolding trim_left trim_right
trim_space s = trim_right (trim_left s)

-- The order of texts by their bytes, which is that by their characters.
unfoldable pub text_le : Text → Text → Bool
text_le [] t = true
text_le (c ∷ s) [] = false
text_le (c ∷ s) (d ∷ t) = ltb (code c) (code d) || (same c d && text_le s t)

module _ {V : Type 0} where
  unfoldable pub insert_sorted : String → V → Dict V → Dict V
  unfolding text_le
  insert_sorted k v [] = (k, v) ∷ []
  insert_sorted k v ((j, w) ∷ m) =
      if text_le (chars k) (chars j) then (k, v) ∷ (j, w) ∷ m else (j, w) ∷ insert_sorted k v m

  -- `sort.Strings` on the keys of a map.
  unfoldable pub sort : Dict V → Dict V
  unfolding insert_sorted
  sort [] = []
  sort ((k, v) ∷ m) = insert_sorted k v (sort m)
