-- ===== src/Merkle/Elements.antt =====
-- The leaves of the tree: every token id is one of them, and every leaf has a position.
use native.Mathlib.Numerals.{add-one}
use paraspace_core.Prelude.{
  ◌==◌, if◌then◌else◌, any, get_elem?, ℕ, ◌+◌, Bool, true, false, ◌||◌, Option, none, some, List,
  [], ◌∷◌, ◌≡◌, ◌≢◌, ◌⊎◌, inl, inr, refl, ◌∙◌, arith, Bool-cases, drop, drop-cons, get-drop,
}
use paraspace_core.Merkle.{insert, sort, unrepeated, elements_of, positions}

-- Whether an id is in a list.
abbrev pub has : ℕ → List ℕ → Bool
has k l = any (λ x. x == k) l

has-insert : (k x : ℕ) (l : List ℕ) → has k (insert x l) ≡ has k (x ∷ l)
has-insert k x [] = refl
has-insert k x (y ∷ ys) = ground (arith, has-insert k x ys)

has-sort : (k : ℕ) (l : List ℕ) → has k (sort l) ≡ has k l
has-sort k [] = refl
has-sort k (x ∷ xs) = rw (has-insert k x (sort xs), has-sort k xs) refl

-- An element that is left out equals the one before it.
abbrev was : ℕ → Option ℕ → Bool
was k none = false
was k (some b) = b == k

has-unrepeated :
    (k : ℕ) (before : Option ℕ) (l : List ℕ)
    → (was k before || has k (unrepeated before l)) ≡ (was k before || has k l)
has-unrepeated k before [] = refl
has-unrepeated k none (x ∷ xs) = has-unrepeated k (some x) xs
has-unrepeated k (some b) (x ∷ xs) = ground (arith, has-unrepeated k (some x) xs)

pub has-elements_of : (k : ℕ) (l : List ℕ) → has k (elements_of l) ≡ has k l
unfolding elements_of
has-elements_of k l = has-unrepeated k none (sort l) ∙ has-sort k l

-- A memo whose positions are right for the list.
abbrev IsRight : List ℕ → (ℕ → Option ℕ) → Type 0
IsRight all memo = (k i : ℕ) → memo k ≡ some i → get_elem? all i ≡ some k

pub positions-IsRight :
    (all : List ℕ) (memo : ℕ → Option ℕ) (i : ℕ) (l : List ℕ)
    → drop i all ≡ l
    → IsRight all memo
    → IsRight all (positions memo i l)
unfolding positions
positions-IsRight all memo i [] d h = h
positions-IsRight all memo i (x ∷ xs) d h =
    positions-IsRight all (λ k. if k == x then some i else memo k) (i + 1) xs
      (rw add-one (drop-cons i all d))
      (λ k j e. elim (Bool-cases (k == x)) [
        | inl t ↦
            let same : k ≡ x = ground arith in
            let pos : some i ≡ some j = rw t at e in
            let at_i : get_elem? all i ≡ some x = rw (get-drop i all, d) refl in
            let ij : i ≡ j = cc in rw (← ij, same) at_i
        | inr t ↦ h k j (rw t at e)
      ])

-- Every id of the list gets a position.
pub positions-some :
    (memo : ℕ → Option ℕ) (i : ℕ) (l : List ℕ) (k : ℕ)
    → (memo k ≢ none) ⊎ (has k l ≡ true)
    → positions memo i l k ≢ none
unfolding positions
positions-some memo i [] k (inl h) = h
positions-some memo i [] k (inr h) = cc
positions-some memo i (x ∷ xs) k h =
    positions-some (λ j. if j == x then some i else memo j) (i + 1) xs k
      (elim (Bool-cases (k == x)) [
        | inl t ↦ inl (rw t (λ e. cc))
        | inr t ↦ elim h [ inl m ↦ inl (rw t m) | inr m ↦ inr (ground arith) ]
      ])
