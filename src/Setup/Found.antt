-- ===== src/Setup/Found.antt =====
-- What a list gives at a position after one more element, and a table of addresses after one more name.
use paraspace_core.Prelude.{
  ℕ, zero, suc, String, str_eq, false, none, some, List, [], ◌∷◌, ◌++◌, length, get_elem?, ◌≡◌, ◌⊎◌,
  refl, inl, inr, Bool-cases, eq_iff, eq_refl, arith,
}
use paraspace_core.Setup.{address_of}

pub get-last {ℓ} :
    {A : Type ℓ} (xs : List A) (x y : A) (k : ℕ)
    → get_elem? (xs ++ x ∷ []) k ≡ some y
    → (get_elem? xs k ≡ some y) ⊎ (k ≡ length xs) × (x ≡ y)
get-last [] x y zero h = inr (refl, cc)
get-last [] x y (suc k) h = cc
get-last (z ∷ xs) x y zero h = inl h
get-last (z ∷ xs) x y (suc k) h = elim (get-last xs x y k h) [
  | inl e ↦ inl e
  | inr (e, f) ↦ inr (omega arith, f)
]

pub get-own {ℓ} : {A : Type ℓ} (xs : List A) (x : A) → get_elem? (xs ++ x ∷ []) (length xs) ≡ some x
get-own [] x = refl
get-own (y ∷ xs) x = get-own xs x

pub get-older {ℓ} :
    {A : Type ℓ} (xs : List A) (x y : A) (k : ℕ)
    → get_elem? xs k ≡ some y
    → get_elem? (xs ++ x ∷ []) k ≡ some y
get-older [] x y k h = cc
get-older (z ∷ xs) x y zero h = h
get-older (z ∷ xs) x y (suc k) h = get-older xs x y k h

pub address_of-own :
    (l : List (String × String)) (n a : String)
    → str_eq a "" ≡ false
    → address_of ((n, a) ∷ l) n ≡ some a
unfolding address_of
address_of-own l n a h = rw (eq_refl n, h) refl

-- A new name does not hide a known one.
pub address_of-other :
    (l : List (String × String)) (n a k b : String)
    → address_of l n ≡ none
    → address_of l k ≡ some b
    → address_of ((n, a) ∷ l) k ≡ some b
unfolding address_of
address_of-other l n a k b new known = elim (Bool-cases (str_eq n k)) [
  | inl t ↦ let e : n ≡ k = (eq_iff n k).0 t in let c : address_of l k ≡ none = rw⁻¹ e new in cc
  | inr t ↦ rw t known
]

-- An address that is found is no empty text.
pub address_of-nonempty :
    (l : List (String × String)) (n a : String) → address_of l n ≡ some a → str_eq a "" ≡ false
unfolding address_of
address_of-nonempty [] n a h = cc
address_of-nonempty ((k, b) ∷ rest) n a h = elim (Bool-cases (str_eq k n)) [
  | inr e ↦ address_of-nonempty rest n a (rw e at h)
  | inl e ↦ elim (Bool-cases (str_eq b "")) [
    | inl z ↦ let h' = rw (e, z) at h in cc
    | inr z ↦ let h' : some b ≡ some a = rw (e, z) at h in let same : b ≡ a = cc in rw⁻¹ same z
  ]
]
