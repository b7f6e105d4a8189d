-- ===== src/Chunk/Tests.antt =====
-- `chunk` on a list of five numbers, and the theorems there.
use paraspace_core.Prelude.{ℕ, List, [], ◌∷◌, ◌≡◌, refl, concat, All, arith}
use paraspace_core.Chunk.{chunk, reduce_chunks}
use paraspace_core.Chunk.Laws.{concat-chunk, IsChunk, chunk-IsChunk}

abbrev numbers : List ℕ
numbers = 1 ∷ 2 ∷ 3 ∷ 4 ∷ 5 ∷ []

chunk_test : chunk numbers 2 ≡ (1 ∷ 2 ∷ []) ∷ (3 ∷ 4 ∷ []) ∷ (5 ∷ []) ∷ []
unfolding chunk reduce_chunks
chunk_test = refl

concat-chunk_example : concat (chunk numbers 2) ≡ numbers
concat-chunk_example = concat-chunk 2 numbers (omega arith)

chunk-IsChunk_example : All (IsChunk 2) (chunk numbers 2)
chunk-IsChunk_example = chunk-IsChunk 2 numbers (omega arith)
