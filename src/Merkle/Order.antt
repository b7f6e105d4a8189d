-- ===== src/Merkle/Order.antt =====
-- The order of the leaves.
use paraspace_core.Prelude.{
  leb, leb→le, ◌==◌, ℕ, ◌≤◌, ◌<◌, none, some, List, [], ◌∷◌, ◌≡◌, inl, inr, arith, Bool-cases,
}
use paraspace_core.Merkle.{insert, sort, unrepeated, elements_of}
use paraspace_core.Merkle.Elements.{has, has-elements_of}

abbrev IsSorted : List ℕ → Type 0
IsSorted [] = Unit
IsSorted (x ∷ []) = Unit
IsSorted (x ∷ y ∷ l) = (x ≤ y) × IsSorted (y ∷ l)

abbrev pub IsIncreasing : List ℕ → Type 0
IsIncreasing [] = Unit
IsIncreasing (x ∷ []) = Unit
IsIncreasing (x ∷ y ∷ l) = (x < y) × IsIncreasing (y ∷ l)

insert-IsSorted : (x : ℕ) (l : List ℕ) → IsSorted l → IsSorted (insert x l)
insert-IsSorted x [] s = tt
insert-IsSorted x (y ∷ []) s = elim (Bool-cases (leb x y)) [
  | inl t ↦ rw t (leb→le x y t, tt)
  | inr t ↦ let above : y ≤ x = ground arith in rw t (above, tt)
]
insert-IsSorted x (y ∷ z ∷ l) (yz, s) = elim (Bool-cases (leb x y)) [
  | inl t ↦ rw t (leb→le x y t, (yz, s))
  | inr t ↦
      let above : y ≤ x = ground arith in
      let rest = insert-IsSorted x (z ∷ l) s in
      elim (Bool-cases (leb x z)) [
        | inl u ↦ rw (t, u) (above, (leb→le x z u, s))
        | inr u ↦ rw (t, u) (yz, rw u at rest)
      ]
]

sort-IsSorted : (l : List ℕ) → IsSorted (sort l)
sort-IsSorted [] = tt
sort-IsSorted (x ∷ xs) = insert-IsSorted x (sort xs) (sort-IsSorted xs)

unrepeated-IsIncreasing :
    (b : ℕ) (l : List ℕ) → IsSorted (b ∷ l) → IsIncreasing (b ∷ unrepeated (some b) l)
unrepeated-IsIncreasing b [] s = tt
unrepeated-IsIncreasing b (x ∷ xs) (bx, s) =
    let rest = unrepeated-IsIncreasing x xs s in
    elim (Bool-cases (b == x)) [
      | inl t ↦
          let same : b ≡ x = ground arith in
          let next : IsIncreasing (b ∷ unrepeated (some x) xs) = rw same rest in rw t next
      | inr t ↦ let less : b < x = ground arith in rw t (less, rest)
    ]

from_sorted : (l : List ℕ) → IsSorted l → IsIncreasing (unrepeated none l)
from_sorted [] s = tt
from_sorted (x ∷ xs) s = unrepeated-IsIncreasing x xs s

-- The leaves of the tree are in increasing order, so that none repeats, and they are exactly the token
-- ids that are given.
pub elements_of-IsIncreasing :
    (token_ids : List ℕ)
    → IsIncreasing (elements_of token_ids)
      × ((k : ℕ) → has k (elements_of token_ids) ≡ has k token_ids)
unfolding elements_of
elements_of-IsIncreasing token_ids =
    (from_sorted (sort token_ids) (sort-IsSorted token_ids), λ k. has-elements_of k token_ids)
