-- ===== src/Merkle/Tests.antt =====
-- A tree over three token ids, one of them twice, and the theorem there.
use paraspace_core.Prelude.{ℕ, ◌+◌, ◌*◌, some, List, [], ◌∷◌, ◌≡◌, ◌≢◌, refl}
use paraspace_core.Merkle.{
  Tree, elements_of, positions, proof_from, proofs_of, reduce_layer, next_layer, layers_from,
  get_layers, merkle_tree,
}
use paraspace_core.Merkle.Elements.{has}
use paraspace_core.Merkle.Order.{IsIncreasing, elements_of-IsIncreasing}
use paraspace_core.Merkle.Proofs.{Proves, merkle_tree-Proves}

abbrev leaf : ℕ → ℕ
leaf x = x + 100

abbrev pair : ℕ → ℕ → ℕ
pair a b = a * 10 + b

abbrev token_ids : List ℕ
token_ids = 7 ∷ 3 ∷ 9 ∷ 3 ∷ []

abbrev tree : Tree
tree = record {
  root = 2227;
  proofs = (3, 107 ∷ 109 ∷ []) ∷ (7, 103 ∷ 109 ∷ []) ∷ (9, 1137 ∷ []) ∷ [];
  max_proof_length = 2;
}

merkle_tree_test : merkle_tree leaf pair token_ids ≡ some tree
unfolding merkle_tree get_layers layers_from next_layer reduce_layer proofs_of proof_from positions
    elements_of
merkle_tree_test = refl

token_ids-ne : token_ids ≢ []
token_ids-ne h = cc

merkle_tree-Proves_example :
    (t : Tree) × (merkle_tree leaf pair token_ids ≡ some t) × Proves leaf pair t token_ids
merkle_tree-Proves_example = merkle_tree-Proves leaf pair token_ids token_ids-ne

elements_of-IsIncreasing_example :
    IsIncreasing (elements_of token_ids)
    × ((k : ℕ) → has k (elements_of token_ids) ≡ has k token_ids)
elements_of-IsIncreasing_example = elements_of-IsIncreasing token_ids
