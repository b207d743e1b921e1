-- ===== src/Engine/Transfer/Chunks.antt =====
-- The loops over the chunks and over the messages.
use direktiv.Base.{
  take, drop, ℕ, zero, suc, ◌+◌, ◌<◌, ◌≤◌, length, length-append, append_assoc, append_nil, Bool,
  true, false, List, [], ◌∷◌, ◌++◌, none, some, if◌then◌else◌, ◌≡◌, refl, ap, sym, ◌∙◌, arith, All,
}
use direktiv.Model.Value.{pos}
use direktiv.Engine.Transfer.{Chunk, Ending, finished, sent, send_chunks, receive, reached}

module _ {A : Type 0} where
  abbrev pub concat : List (List A) → List A
  concat [] = []
  concat (xs ∷ rest) = xs ++ concat rest

  abbrev pub joined : List (Chunk A) → List A
  joined [] = []
  joined (c ∷ cs) = c.value ++ joined cs

  take-drop : (n : ℕ) (xs : List A) → take n xs ++ drop n xs ≡ xs
  take-drop zero xs = refl
  take-drop (suc n) [] = refl
  take-drop (suc n) (x ∷ xs) = ap (λ t. x ∷ t) (take-drop n xs)

  length-take : (n : ℕ) (xs : List A) → length (take n xs) ≤ n
  length-take zero xs = omega arith
  length-take (suc n) [] = omega arith
  length-take (suc n) (x ∷ xs) = omega (arith, length-take n xs)

  length-drop : (n : ℕ) (xs : List A) → length (drop n xs) ≤ length xs
  length-drop zero xs = omega arith
  length-drop (suc n) [] = omega arith
  length-drop (suc n) (x ∷ xs) = omega (arith, length-drop n xs)

  -- What the loop gives for bytes: the chunks are these bytes, none is too long, each names the
  -- total, and the loop ends by itself.
  pub record IsSplit (size total : ℕ) (xs : List A) (r : List (Chunk A) × Ending) : Type 0 where
    pub whole : joined r.0 ≡ xs
    pub short : All (λ (c : Chunk A). (length c.value ≤ size) × (c.total_size ≡ total)) r.0
    pub ends : r.1 ≡ finished

  cons-IsSplit :
      (size total : ℕ) (xs : List A) (r : List (Chunk A) × Ending)
      → IsSplit size total (drop size xs) r
      → IsSplit size total xs (sent none (record { value = take size xs; total_size = total }) r)
  cons-IsSplit size total xs (cs, e) s = record {
    whole = ap (λ t. take size xs ++ t) s.whole ∙ take-drop size xs;
    short = ((length-take size xs, refl), s.short);
    ends = s.ends;
  }

  pub send_chunks-IsSplit :
      (fuel size : ℕ) (first : Bool) (total : ℕ) (xs : List A)
      → (if first then 1 + length xs else length xs) < fuel
      → IsSplit (suc size) total xs (send_chunks fuel (suc size) first total [] xs)
  unfolding send_chunks
  send_chunks-IsSplit zero size first total xs h = absurd (ground arith)
  send_chunks-IsSplit (suc fuel) size true total xs h =
      cons-IsSplit (suc size) total xs
        (send_chunks fuel (suc size) false total [] (drop (suc size) xs))
        (send_chunks-IsSplit fuel size false total (drop (suc size) xs)
          (omega (arith, h, length-drop (suc size) xs)))
  send_chunks-IsSplit (suc fuel) size false total [] h = record {
    whole = refl;
    short = tt;
    ends = refl;
  }
  send_chunks-IsSplit (suc fuel) size false total (x ∷ xs) h =
      cons-IsSplit (suc size) total (x ∷ xs)
        (send_chunks fuel (suc size) false total [] (drop size xs))
        (send_chunks-IsSplit fuel size false total (drop size xs)
          (omega (arith, h, length-drop size xs)))

  -- The messages are taken to the last one, if each has bytes and together they have the total.
  pub receive-concat :
      (total read : ℕ) (buffer value : List A) (values : List (List A))
      → All (λ (v : List A). 0 < length v) values
      → read + length (value ++ concat values) ≡ total
      → receive (pos total) read buffer (value ∷ values) ≡ some (buffer ++ (value ++ concat values))
  unfolding receive
  receive-concat total read buffer value [] full sum =
      let lens = length-append value [] in
      let e : reached (read + length value) (pos total) ≡ true = ground (arith, sum, lens) in
      ap (λ b. if b then some (buffer ++ value) else none) e
      ∙ ap (λ t. some (buffer ++ t)) (sym (append_nil value))
  receive-concat total read buffer value (v ∷ values) full sum =
      let lens = length-append value (v ++ concat values) in
      let more = length-append v (concat values) in
      let e : reached (read + length value) (pos total) ≡ false =
        ground (arith, sum, lens, more, full.0) in
      ap
        (λ b.
          if b
          then some (buffer ++ value)
          else receive (pos total) (read + length value) (buffer ++ value) (v ∷ values))
        e
      ∙ receive-concat total (read + length value) (buffer ++ value) v values full.1
          (omega (arith, sum, lens))
      ∙ ap some (append_assoc buffer value (v ++ concat values))
