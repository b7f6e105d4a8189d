-- ===== src/Merkle/Proofs.antt =====
-- The tree as a whole: it exists, and the proof of each token id leads to its root.
use paraspace_core.Prelude.{
  ◌==◌, if◌then◌else◌, get_elem?, length, ℕ, zero, suc, ◌≤◌, true, Option, none, some, List, [],
  ◌∷◌, map, ◌>>=◌, ◌≡◌, ◌≢◌, inl, inr, refl, ◌∙◌, arith, Bool-cases, Option-cases,
}
use paraspace_core.Merkle.{
  elements_of, positions, proof_from, last, maximum, Tree, proofs_of, get_layers, layers_from,
  merkle_tree,
}
use paraspace_core.Merkle.Elements.{has, has-elements_of, positions-IsRight, positions-some}
use paraspace_core.Merkle.Layers.{verify, root_of, verify-proof_from}

-- `proofs[id]`
abbrev pub find_proof : ℕ → List (ℕ × List ℕ) → Option (List ℕ)
find_proof k [] = none
find_proof k ((el, p) ∷ rest) = let later = find_proof k rest in if el == k then some p else later

-- The proof of an id that is made from its position.
abbrev HasProof : (ℕ → Option ℕ) → List (List ℕ) → List (ℕ × List ℕ) → ℕ → Type 0
HasProof position layers ps k =
    (i : ℕ) × (position k ≡ some i) × (find_proof k ps ≡ some (proof_from i layers))

proofs_of-lem :
    (position : ℕ → Option ℕ) (layers : List (List ℕ)) (els : List ℕ)
    → ((k : ℕ) → has k els ≡ true → position k ≢ none)
    → (ps : List (ℕ × List ℕ)) × (proofs_of position layers els ≡ some ps)
      × ((k : ℕ) → has k els ≡ true → HasProof position layers ps k)
unfolding proofs_of
proofs_of-lem position layers [] h = ([], refl, λ k e. cc)
proofs_of-lem position layers (el ∷ rest) h =
    let known_rest : (k : ℕ) → has k rest ≡ true → position k ≢ none = λ k e. h k (ground arith) in
    let (ps, made, all) = proofs_of-lem position layers rest known_rest in
    elim (Option-cases (position el)) [
      | inl e ↦ absurd (h el (ground arith) e)
      | inr (i, e) ↦ (
        (el, proof_from i layers) ∷ ps,
        rw (e, made) refl,
        λ k m. elim (Bool-cases (el == k)) [
          | inl t ↦ let same : el ≡ k = ground arith in (i, rw (← same) e, rw t refl)
          | inr t ↦ let (j, at_k, found) = all k (ground arith) in (j, at_k, rw t found)
        ],
      )
    ]

length-find_proof :
    (k : ℕ) (ps : List (ℕ × List ℕ)) (p : List ℕ)
    → find_proof k ps ≡ some p
    → length p ≤ maximum (map (λ q. length q.1) ps)
length-find_proof k [] p h = cc
length-find_proof k ((el, q) ∷ rest) p h = elim (Bool-cases (el == k)) [
  | inl t ↦
      let found : some q ≡ some p = rw t at h in let same : q ≡ p = cc in rw (← same) ground arith
  | inr t ↦ let ih = length-find_proof k rest p (rw t at h) in ground arith
]

get-map :
    (f : ℕ → ℕ) (l : List ℕ) (i x : ℕ) → get_elem? l i ≡ some x → get_elem? (map f l) i ≡ some (f x)
get-map f [] i x h = cc
get-map f (y ∷ l) zero x h = let e : y ≡ x = cc in rw e refl
get-map f (y ∷ l) (suc i) x h = get-map f l i x h

module _ (hash_leaf : ℕ → ℕ) (hash_pair : ℕ → ℕ → ℕ) where
  abbrev layers_on : List ℕ → List (List ℕ)
  layers_on els = layers_from hash_leaf hash_pair (length (map hash_leaf els)) (map hash_leaf els)

  abbrev position_in : List ℕ → ℕ → Option ℕ
  position_in els = positions (λ _. none) 0 els

  leaf-root :
      (els : List ℕ) (k i : ℕ)
      → position_in els k ≡ some i
      → root_of hash_leaf hash_pair (layers_on els)
        ≡ some (verify hash_leaf hash_pair (proof_from i (layers_on els)) (hash_leaf k))
  leaf-root els k i h =
      verify-proof_from hash_leaf hash_pair (length (map hash_leaf els)) (map hash_leaf els) i
        (hash_leaf k) (omega arith)
        (get-map hash_leaf els i k
          (positions-IsRight els (λ _. none) 0 els refl (λ j l e. cc) k i h))

  -- A tree in which every token id has a proof that leads from its leaf to the root and is not longer
  -- than the tree says.
  pub record Proves (t : Tree) (token_ids : List ℕ) : Type 0 where
    pub proof_of :
        (k : ℕ)
        → has k token_ids ≡ true
        → (p : List ℕ) × (find_proof k t.proofs ≡ some p)
          × (verify hash_leaf hash_pair p (hash_leaf k) ≡ t.root)
          × (length p ≤ t.max_proof_length)

  -- From the parts that the tree is made of.
  tree_of :
      (els : List ℕ) (x : ℕ)
      → has x els ≡ true
      → (t : Tree) × ((get_elem? (last (layers_on els)) 0 >>= λ root.
            proofs_of (position_in els) (layers_on els) els >>= λ proofs. some (record {
              root = root;
              proofs = proofs;
              max_proof_length = maximum (map (λ p. length p.1) proofs);
            }))
          ≡ some t)
        × Proves t els
  tree_of els x m =
      let known : (k : ℕ) → has k els ≡ true → position_in els k ≢ none =
        λ k h. positions-some (λ _. none) 0 els k (inr h) in
      let (ps, made, all) = proofs_of-lem (position_in els) (layers_on els) els known in
      let (i, at_x, _) = all x m in
      let root = leaf-root els x i at_x in
      let top = verify hash_leaf hash_pair (proof_from i (layers_on els)) (hash_leaf x) in
      (
        record { root = top; proofs = ps; max_proof_length = maximum (map (λ p. length p.1) ps) },
        rw (root, made) refl,
        record {
          proof_of = λ k h.
              let (j, at_k, found) = all k h in
              let other = leaf-root els k j at_k in
              let same : verify hash_leaf hash_pair (proof_from j (layers_on els)) (hash_leaf k)
                  ≡ top =
                cc in
              (proof_from j (layers_on els), found, same, length-find_proof k ps _ found);
        },
      )

  get_layers-some :
      (els : List ℕ) (x : ℕ)
      → has x els ≡ true
      → get_layers hash_leaf hash_pair els ≡ some (layers_on els)
  unfolding get_layers
  get_layers-some [] x h = cc
  get_layers-some (el ∷ rest) x h = refl

  -- For every list of token ids that is not empty there is a tree, and in it each token id has a
  -- proof, no longer than the tree's `maxProofLength`, which hashed with the id's leaf in the way of
  -- a verifier gives the root. The same holds with ids that repeat.
  pub merkle_tree-Proves :
      (token_ids : List ℕ)
      → token_ids ≢ []
      → (t : Tree) × (merkle_tree hash_leaf hash_pair token_ids ≡ some t) × Proves t token_ids
  unfolding merkle_tree get_layers
  merkle_tree-Proves [] ne = absurd (ne refl)
  merkle_tree-Proves (x ∷ rest) ne =
      let els = elements_of (x ∷ rest) in
      let here : has x (x ∷ rest) ≡ true = ground arith in
      let kept : has x els ≡ true = has-elements_of x (x ∷ rest) ∙ here in
      let (t, made, proves) = tree_of els x kept in
      (
        t,
        rw (get_layers-some els x kept) made,
        record { proof_of = λ k h. proves.proof_of k (has-elements_of k (x ∷ rest) ∙ h) },
      )
