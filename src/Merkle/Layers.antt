-- ===== src/Merkle/Layers.antt =====
-- What a layer holds of the one below it, and that the proof of an element leads to the root.
use native.Mathlib.Numerals.{add-one}
use paraspace_core.Prelude.{
  drop-cons, get-drop, leb, ltb, ltb→lt, if◌then◌else◌, get_elem?, length, drop, ℕ, zero, suc, ◌+◌,
  ◌*◌, ◌/◌, ◌%◌, ◌≤◌, false, Option, none, some, List, [], ◌∷◌, ◌++◌, ◌≡◌, inl, inr, refl, sym, ap,
  ◌∙◌, arith, Bool-cases, append-nil, append_assoc,
}
use paraspace_core.Merkle.{
  pair_idx, push, proof_from, last, combined_hash, reduce_layer, next_layer, layers_from,
}

module _ (hash_leaf : ℕ → ℕ) (hash_pair : ℕ → ℕ → ℕ) where
  -- Two neighbours at a time.
  abbrev pairs : List ℕ → List ℕ
  pairs [] = []
  pairs (x ∷ []) = x ∷ []
  pairs (x ∷ y ∷ rest) = combined_hash hash_leaf hash_pair x (some y) ∷ pairs rest

  reduce_layer-pairs :
      (arr layer : List ℕ) (i : ℕ) (rest : List ℕ)
      → i % 2 ≡ 0
      → drop i arr ≡ rest
      → reduce_layer hash_leaf hash_pair arr layer i rest ≡ layer ++ pairs rest
  unfolding reduce_layer
  reduce_layer-pairs arr layer i [] e d = sym (append-nil layer)
  reduce_layer-pairs arr layer i (x ∷ []) e d =
      let next : get_elem? arr (i + 1) ≡ none =
        let end : drop (i + 1) arr ≡ [] = rw add-one (drop-cons i arr d) in
        rw (get-drop (i + 1) arr, end) refl in
      rw (e, next) refl
  reduce_layer-pairs arr layer i (x ∷ y ∷ rest) e d =
      let tail : drop (i + 1) arr ≡ y ∷ rest = rw add-one (drop-cons i arr d) in
      let next : get_elem? arr (i + 1) ≡ some y = rw (get-drop (i + 1) arr, tail) refl in
      let odd : (i + 1) % 2 ≡ 1 = omega (arith, e) in
      let even : (i + 1 + 1) % 2 ≡ 0 = omega (arith, e) in
      let ih =
        reduce_layer-pairs arr (layer ++ combined_hash hash_leaf hash_pair x (some y) ∷ [])
          (i + 1 + 1) rest even (rw add-one (drop-cons (i + 1) arr tail)) in
      rw (e, next, odd) (ih ∙ append_assoc layer _ (pairs rest))

  next_layer-pairs : (l : List ℕ) → next_layer hash_leaf hash_pair l ≡ pairs l
  unfolding next_layer
  next_layer-pairs l = reduce_layer-pairs l [] 0 l refl refl

  combined_comm :
      (a b : ℕ)
      → combined_hash hash_leaf hash_pair a (some b) ≡ combined_hash hash_leaf hash_pair b (some a)
  combined_comm a b = ground arith

  pairs-get :
      (l : List ℕ) (i x : ℕ)
      → get_elem? l i ≡ some x
      → get_elem? (pairs l) (i / 2)
        ≡ some (combined_hash hash_leaf hash_pair x (get_elem? l (pair_idx i)))
  pairs-get [] i x h = cc
  pairs-get (y ∷ []) zero x h = h
  pairs-get (y ∷ []) (suc i) x h = cc
  pairs-get (y ∷ z ∷ rest) zero x h = let e : y ≡ x = cc in rw e refl
  pairs-get (y ∷ z ∷ rest) (suc zero) x h = let e : z ≡ x = cc in rw e (ap some (combined_comm y x))
  pairs-get (y ∷ z ∷ rest) (suc (suc i)) x h =
      let half : suc (suc i) / 2 ≡ suc (i / 2) = omega arith in
      let pair : pair_idx (suc (suc i)) ≡ suc (suc (pair_idx i)) = ground arith in
      rw (half, pair) (pairs-get rest i x h)

  length-pairs : (l : List ℕ) → 2 * length (pairs l) ≤ length l + 1
  length-pairs [] = omega arith
  length-pairs (x ∷ []) = omega arith
  length-pairs (x ∷ y ∷ rest) = omega (arith, length-pairs rest)

  -- The hashing of an element with its proof, as a verifier does it: at each step the smaller of the
  -- two goes first.
  abbrev pub verify : List ℕ → ℕ → ℕ
  verify [] computed = computed
  verify (p ∷ ps) computed =
      verify ps (if leb computed p then hash_pair computed p else hash_pair p computed)

  -- The layers end in the root.
  abbrev pub root_of : List (List ℕ) → Option ℕ
  root_of layers = get_elem? (last layers) 0

  verify-push :
      (o : Option ℕ) (ps : List ℕ) (x : ℕ)
      → verify (push o ps) x ≡ verify ps (combined_hash hash_leaf hash_pair x o)
  verify-push none ps x = refl
  verify-push (some s) ps x = refl

  get-short :
      (l : List ℕ) (i x : ℕ)
      → length l ≤ 1
      → get_elem? l i ≡ some x
      → (i ≡ 0) × (get_elem? l (pair_idx i) ≡ none)
  get-short [] i x h e = cc
  get-short (y ∷ []) zero x h e = (refl, refl)
  get-short (y ∷ []) (suc i) x h e = cc
  get-short (y ∷ z ∷ l) i x h e = absurd (omega (arith, h))

  last-layers_from :
      (n : ℕ) (l k : List ℕ)
      → last (k ∷ layers_from hash_leaf hash_pair n l) ≡ last (layers_from hash_leaf hash_pair n l)
  unfolding layers_from
  last-layers_from zero l k = refl
  last-layers_from (suc n) l k = elim (Bool-cases (ltb 1 (length l))) [
    | inl t ↦ rw t refl
    | inr t ↦ rw t refl
  ]

  -- Short layers end the loop.
  layers_from-short :
      (n : ℕ) (l : List ℕ) → length l ≤ 1 → layers_from hash_leaf hash_pair n l ≡ l ∷ []
  unfolding layers_from
  layers_from-short zero l h = refl
  layers_from-short (suc n) l h = let t : ltb 1 (length l) ≡ false = ground arith in rw t refl

  verify-short :
      (n : ℕ) (l : List ℕ) (i x : ℕ)
      → length l ≤ 1
      → get_elem? l i ≡ some x
      → root_of (layers_from hash_leaf hash_pair n l)
        ≡ some (verify (proof_from i (layers_from hash_leaf hash_pair n l)) x)
  unfolding proof_from
  verify-short n l i x h e =
      let (at_0, no_pair) = get-short l i x h e in
      rw (layers_from-short n l h, no_pair) (rw at_0 at e)

  -- From any layer, the proof of the element at an index, hashed with it, is the root.
  pub verify-proof_from :
      (n : ℕ) (l : List ℕ) (i x : ℕ)
      → length l ≤ n + 1
      → get_elem? l i ≡ some x
      → root_of (layers_from hash_leaf hash_pair n l)
        ≡ some (verify (proof_from i (layers_from hash_leaf hash_pair n l)) x)
  unfolding proof_from layers_from
  verify-proof_from zero l i x h e = verify-short zero l i x h e
  verify-proof_from (suc n) l i x h e = elim (Bool-cases (ltb 1 (length l))) [
    | inr t ↦ let short : length l ≤ 1 = ground arith in verify-short (suc n) l i x short e
    | inl t ↦
        let next = next_layer-pairs l in
        let bound : length (next_layer hash_leaf hash_pair l) ≤ n + 1 =
          rw next (omega (arith, length-pairs l, h, ltb→lt 1 (length l) t)) in
        let above = combined_hash hash_leaf hash_pair x (get_elem? l (pair_idx i)) in
        let ih =
          verify-proof_from n (next_layer hash_leaf hash_pair l) (i / 2) above bound
            (rw next (pairs-get l i x e)) in
        let rest = layers_from hash_leaf hash_pair n (next_layer hash_leaf hash_pair l) in
        rw
          (
            t,
            last-layers_from n (next_layer hash_leaf hash_pair l) l,
            verify-push (get_elem? l (pair_idx i)) (proof_from (i / 2) rest) x,
          )
          ih
  ]
