-- ===== src/Chunk.antt =====
-- `chunk` of helpers/misc-utils.ts.
pub mod Laws
mod Tests
use paraspace_core.Prelude.{
  ◌==◌, if◌then◌else◌, take, drop, ℕ, ◌+◌, ◌%◌, Bool, true, List, [], ◌∷◌, ◌++◌,
}

-- `!(currIndx % chunkSize)`: `i % 0` is NaN in the source, which is falsy.
abbrev pub starts_chunk : ℕ → ℕ → Bool
starts_chunk i size = if size == 0 then true else i % size == 0

module _ {ℓ} {A : Type ℓ} where
  -- `array.slice(from, from + size)`
  abbrev pub slice : List A → ℕ → ℕ → List A
  slice array from size = take size (drop from array)

  -- The reduction over the elements from index `i` on, over the whole array.
  unfoldable pub reduce_chunks : ℕ → List A → List (List A) → ℕ → List A → List (List A)
  reduce_chunks size array chunks i [] = chunks
  reduce_chunks size array chunks i (x ∷ xs) =
      reduce_chunks size array
        (if starts_chunk i size then chunks ++ slice array i size ∷ [] else chunks) (i + 1) xs

  unfoldable pub chunk : List A → ℕ → List (List A)
  unfolding reduce_chunks
  chunk arr size = reduce_chunks size arr [] 0 arr
