-- ===== src/Merkle.antt =====
-- The Merkle tree over token ids of helpers/seaport-helpers/criteria.ts. A buffer of 32 bytes is the
-- number that it holds, so a token id is below 2 ^ 256 and `Buffer.compare` is the order of numbers.
-- `hash_leaf` and `hash_pair` stand for keccak256 of a buffer and of two buffers together.
pub mod Elements
pub mod Order
pub mod Layers
pub mod Proofs
mod Tests
use paraspace_core.Prelude.{
  leb, ltb, ◌==◌, if◌then◌else◌, get_elem?, length, ◌>>=◌, ℕ, zero, suc, ◌+◌, ◌-◌, ◌/◌, ◌%◌, Bool,
  not, Option, none, some, List, [], ◌∷◌, ◌++◌, map,
}

-- `.sort(Buffer.compare)`
abbrev pub insert : ℕ → List ℕ → List ℕ
insert x [] = x ∷ []
insert x (y ∷ ys) = let rest = insert x ys in if leb x y then x ∷ y ∷ ys else y ∷ rest

abbrev pub sort : List ℕ → List ℕ
sort [] = []
sort (x ∷ xs) = insert x (sort xs)

-- `.filter((el, idx, arr) => idx === 0 || !arr[idx - 1].equals(el))`, after the element `before`.
abbrev pub unrepeated : Option ℕ → List ℕ → List ℕ
unrepeated before [] = []
unrepeated none (x ∷ xs) = x ∷ unrepeated (some x) xs
unrepeated (some b) (x ∷ xs) =
    let rest = unrepeated (some x) xs in if not (b == x) then x ∷ rest else rest

unfoldable pub elements_of : List ℕ → List ℕ
elements_of token_ids = unrepeated none (sort token_ids)

-- `bufferElementPositionIndex`: a later position takes the place of an earlier one.
unfoldable pub positions : (ℕ → Option ℕ) → ℕ → List ℕ → ℕ → Option ℕ
positions memo i [] = memo
positions memo i (el ∷ rest) = positions (λ k. if k == el then some i else memo k) (i + 1) rest

-- What `getHexProof` looks at in a layer.
abbrev pub pair_idx : ℕ → ℕ
pair_idx i = if i % 2 == 0 then i + 1 else i - 1

abbrev pub push : Option ℕ → List ℕ → List ℕ
push none l = l
push (some s) l = s ∷ l

-- The reduction of `getHexProof` over the layers, from an index on.
unfoldable pub proof_from : ℕ → List (List ℕ) → List ℕ
proof_from i [] = []
proof_from i (layer ∷ layers) = push (get_elem? layer (pair_idx i)) (proof_from (i / 2) layers)

-- `layers[layers.length - 1]`
abbrev pub last : List (List ℕ) → List ℕ
last [] = []
last (l ∷ []) = l
last (l ∷ k ∷ ls) = last (k ∷ ls)

abbrev pub maximum : List ℕ → ℕ
maximum [] = 0
maximum (n ∷ ns) = let rest = maximum ns in if leb rest n then n else rest

pub record Tree : Type 0 where
  pub root : ℕ
  pub proofs : List (ℕ × List ℕ)
  pub max_proof_length : ℕ

-- The proofs of all elements; an element without a position throws.
unfoldable pub proofs_of : (ℕ → Option ℕ) → List (List ℕ) → List ℕ → Option (List (ℕ × List ℕ))
proofs_of position layers [] = some []
proofs_of position layers (el ∷ rest) = position el >>= λ i.
    proofs_of position layers rest >>= λ ps. some ((el, proof_from i layers) ∷ ps)

module _ (hash_leaf : ℕ → ℕ) (hash_pair : ℕ → ℕ → ℕ) where
  -- `combinedHash`; a second that is missing leaves the first.
  abbrev pub combined_hash : ℕ → Option ℕ → ℕ
  combined_hash a none = a
  combined_hash a (some b) = if leb a b then hash_pair a b else hash_pair b a

  -- The reduction of `getNextLayer` over the elements from index `i` on, over the whole layer.
  unfoldable pub reduce_layer : List ℕ → List ℕ → ℕ → List ℕ → List ℕ
  reduce_layer arr layer i [] = layer
  reduce_layer arr layer i (el ∷ rest) =
      reduce_layer arr
        (if i % 2 == 0 then layer ++ combined_hash el (get_elem? arr (i + 1)) ∷ [] else layer)
        (i + 1) rest

  unfoldable pub next_layer : List ℕ → List ℕ
  next_layer elements = reduce_layer elements [] 0 elements

  -- The loop of `getLayers`; every layer is shorter than the one before, so the number of leaves is
  -- enough fuel.
  unfoldable pub layers_from : ℕ → List ℕ → List (List ℕ)
  layers_from zero layer = layer ∷ []
  layers_from (suc n) layer =
      let rest = layers_from n (next_layer layer) in
      if ltb 1 (length layer) then layer ∷ rest else layer ∷ []

  unfoldable pub get_layers : List ℕ → Option (List (List ℕ))
  get_layers [] = none
  get_layers (el ∷ rest) =
      let leaves = map hash_leaf (el ∷ rest) in some (layers_from (length leaves) leaves)

  unfoldable pub merkle_tree : List ℕ → Option Tree
  merkle_tree token_ids =
      let elements = elements_of token_ids in
      get_layers elements >>= λ layers. get_elem? (last layers) 0 >>= λ root.
      proofs_of (positions (λ _. none) 0 elements) layers elements >>= λ proofs. some (record {
        root = root;
        proofs = proofs;
        max_proof_length = maximum (map (λ p. length p.1) proofs);
      })
