-- ===== src/Chunk/Laws.antt =====
-- What `chunk` makes of a list: the chunks put together are the list, none is empty and none too long.
use paraspace_core.Prelude.{
  drop-cons, length, take, drop, concat, All, All-append, take-append-drop, ℕ, zero, suc, ◌+◌, ◌-◌,
  ◌%◌, ◌≤◌, ◌<◌, true, false, List, [], ◌∷◌, ◌++◌, ◌≡◌, refl, sym, ap, ◌∙◌, arith, Bool-cases, inl,
  inr, ◌⊎◌, append_assoc, append-nil,
}
use native.Mathlib.Numerals.{add-one}
use paraspace_core.Chunk.{slice, starts_chunk, reduce_chunks, chunk}

mod-suc_lt : (i size : ℕ) → i % size + 1 < size → (i + 1) % size ≡ i % size + 1
mod-suc_lt i size h = grind arith

mod-suc_eq : (i size : ℕ) → i % size + 1 ≡ size → (i + 1) % size ≡ 0
mod-suc_eq i size h = grind arith

-- At index `i`, `k` elements of the current chunk are still to come.
abbrev Left : ℕ → ℕ → ℕ → Type 0
Left size i k = (0 < i % size) × (i % size + k ≡ size) ⊎ (i % size ≡ 0) × (k ≡ 0)

Left-first : (size i : ℕ) → 0 < size → i % size ≡ 0 → Left size (i + 1) (size - 1)
Left-first size i h e = grind (arith, mod-suc_lt i size, mod-suc_eq i size)

Left-later : (size i k : ℕ) → 0 < size → Left size i (suc k) → Left size (i + 1) k
Left-later size i k h l = grind (arith, mod-suc_lt i size, mod-suc_eq i size)

module _ {ℓ} {A : Type ℓ} where
  concat-append : (xss yss : List (List A)) → concat (xss ++ yss) ≡ concat xss ++ concat yss
  concat-append [] yss = refl
  concat-append (xs ∷ xss) yss =
      ap (λ l. xs ++ l) (concat-append xss yss) ∙ sym (append_assoc xs (concat xss) (concat yss))

  take-pos : (n : ℕ) (x : A) (xs : List A) → 0 < n → take n (x ∷ xs) ≡ x ∷ take (n - 1) xs
  take-pos zero x xs h = elim h [ ]
  take-pos (suc n) x xs h = let e : n ≡ suc n - 1 = omega arith in ap (λ m. x ∷ take m xs) e

  first_chunk :
      (size : ℕ) (array : List A) (chunks : List (List A)) (i : ℕ) (x : A) (xs : List A)
      → 0 < size
      → drop i array ≡ x ∷ xs
      → concat (chunks ++ slice array i size ∷ []) ++ drop (size - 1) xs ≡ concat chunks ++ x ∷ xs
  first_chunk size array chunks i x xs h e =
      let split : take size (x ∷ xs) ≡ x ∷ take (size - 1) xs = take-pos size x xs h in
      rw (concat-append, e, split, append-nil)
        (append_assoc (concat chunks) (x ∷ take (size - 1) xs) (drop (size - 1) xs)
          ∙ ap (λ l. concat chunks ++ x ∷ l) (take-append-drop (size - 1) xs))

  concat-reduce_chunks :
      (size : ℕ) (array : List A) (chunks : List (List A)) (i k : ℕ) (rest : List A)
      → 0 < size
      → drop i array ≡ rest
      → Left size i k
      → concat (reduce_chunks size array chunks i rest) ≡ concat chunks ++ drop k rest
  unfolding reduce_chunks
  concat-reduce_chunks size array chunks i zero [] h e l = sym (append-nil (concat chunks))
  concat-reduce_chunks size array chunks i (suc k) [] h e l = sym (append-nil (concat chunks))
  concat-reduce_chunks size array chunks i zero (x ∷ xs) h e l =
      let here : i % size ≡ 0 = omega arith in
      let test : starts_chunk i size ≡ true = ground arith in
      let next : drop (i + 1) array ≡ xs = rw add-one (drop-cons i array e) in
      let ih =
        concat-reduce_chunks size array (chunks ++ slice array i size ∷ []) (i + 1) (size - 1) xs h
          next (Left-first size i h here) in
      rw test (ih ∙ first_chunk size array chunks i x xs h e)
  concat-reduce_chunks size array chunks i (suc k) (x ∷ xs) h e l =
      let test : starts_chunk i size ≡ false = ground arith in
      let next : drop (i + 1) array ≡ xs = rw add-one (drop-cons i array e) in
      rw test (concat-reduce_chunks size array chunks (i + 1) k xs h next (Left-later size i k h l))

  -- The chunks put together, in order, are the list: none of its elements is lost, repeated or moved.
  -- The chunk size is positive.
  pub concat-chunk : (size : ℕ) (arr : List A) → 0 < size → concat (chunk arr size) ≡ arr
  unfolding chunk
  concat-chunk size arr h =
      concat-reduce_chunks size arr [] 0 0 arr h refl (inr (omega arith, refl))

  length-take-le : (n : ℕ) (xs : List A) → length (take n xs) ≤ n
  length-take-le zero xs = omega arith
  length-take-le (suc n) [] = omega arith
  length-take-le (suc n) (x ∷ xs) = omega (arith, length-take-le n xs)

  abbrev pub IsChunk : ℕ → List A → Type 0
  IsChunk size c = (0 < length c) × (length c ≤ size)

  take-IsChunk : (n : ℕ) (x : A) (xs : List A) → 0 < n → IsChunk n (take n (x ∷ xs))
  take-IsChunk zero x xs h = elim h [ ]
  take-IsChunk (suc n) x xs h = omega (arith, length-take-le n xs)

  All-reduce_chunks :
      (size : ℕ) (array : List A) (chunks : List (List A)) (i : ℕ) (rest : List A)
      → 0 < size
      → drop i array ≡ rest
      → All (IsChunk size) chunks
      → All (IsChunk size) (reduce_chunks size array chunks i rest)
  unfolding reduce_chunks
  All-reduce_chunks size array chunks i [] h e p = p
  All-reduce_chunks size array chunks i (x ∷ xs) h e p =
      let next : drop (i + 1) array ≡ xs = rw add-one (drop-cons i array e) in
      let here : IsChunk size (slice array i size) = rw e (take-IsChunk size x xs h) in
      elim (Bool-cases (starts_chunk i size)) [
        | inl t ↦ rw t (
            All-reduce_chunks size array (chunks ++ slice array i size ∷ []) (i + 1) xs h next
              (All-append (IsChunk size) chunks (slice array i size ∷ []) p (here, tt)))
        | inr t ↦ rw t (All-reduce_chunks size array chunks (i + 1) xs h next p)
      ]

  -- No chunk is empty, and none is longer than the chunk size, which is positive.
  pub chunk-IsChunk : (size : ℕ) (arr : List A) → 0 < size → All (IsChunk size) (chunk arr size)
  unfolding chunk
  chunk-IsChunk size arr h = All-reduce_chunks size arr [] 0 arr h refl tt
