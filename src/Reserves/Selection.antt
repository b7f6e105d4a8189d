-- ===== src/Reserves/Selection.antt =====
-- Which assets of a list the tasks deal with: the search for a reserve, and the ways to end a loop.
use paraspace_core.Prelude.{
  if◌then◌else◌, String, Bool, true, false, Option, none, some, List, [], ◌∷◌, ◌>>=◌, ◌≡◌, inl, inr,
  refl, Bool-cases,
}
use paraspace_core.Reserves.{Reserve, Pool, is_listed}
use paraspace_core.Reserves.Tasks.{missing, found, look_up, find_reserve}

-- The values before the first that is absent, and all that are present.
abbrev pub leading {ℓ} : {A : Type ℓ} → List (Option A) → List A
leading [] = []
leading (none ∷ l) = []
leading (some a ∷ l) = a ∷ leading l

abbrev pub present {ℓ} : {A : Type ℓ} → List (Option A) → List A
present [] = []
present (none ∷ l) = present l
present (some a ∷ l) = a ∷ present l

-- What an address leads to.
abbrev pub if_listed : (String → Bool) → Option String → Option String
if_listed listed o = o >>= λ a. if listed a then some a else none

missing-if_listed :
    (l : List String) (o : Option String) (listed : String → Bool) (data_of : String → Reserve)
    → (l ≡ [] → (b : String) → listed b ≡ false)
    → look_up l o listed data_of ≡ missing
    → if_listed listed o ≡ none
missing-if_listed l none listed data_of e h = refl
missing-if_listed [] (some b) listed data_of e h = rw (e refl b)
missing-if_listed (x ∷ l) (some b) listed data_of e h = elim (Bool-cases (listed b)) [
  | inl t ↦ let h' = rw t at h in cc
  | inr t ↦ rw t
]

found-if_listed :
    (l : List String) (o : Option String) (listed : String → Bool) (data_of : String → Reserve)
    (a : String) (r : Reserve)
    → look_up l o listed data_of ≡ found a r
    → (if_listed listed o ≡ some a) × (r ≡ data_of a)
found-if_listed [] o listed data_of a r h = cc
found-if_listed (x ∷ l) none listed data_of a r h = cc
found-if_listed (x ∷ l) (some b) listed data_of a r h = elim (Bool-cases (listed b)) [
  | inl t ↦ let h' = rw t at h in (rw t cc, cc)
  | inr t ↦ let h' = rw t at h in cc
]

is_listed-nil : (p : Pool) → p.reserves_list ≡ [] → (b : String) → is_listed p b ≡ false
is_listed-nil p e b = rw e refl

module _ (g : String → Option String) where
  -- The address of an asset that the pool lists.
  abbrev pub known : Pool → String → Option String
  known p asset = if_listed (is_listed p) (g asset)

  pub known-missing :
      (p : Pool) (asset : String) → find_reserve g p asset ≡ missing → known p asset ≡ none
  unfolding find_reserve
  known-missing p asset h =
      missing-if_listed p.reserves_list (g asset) (is_listed p) p.reserve (is_listed-nil p) h

  pub known-found :
      (p : Pool) (asset a : String) (r : Reserve)
      → find_reserve g p asset ≡ found a r
      → (known p asset ≡ some a) × (r ≡ p.reserve a)
  unfolding find_reserve
  known-found p asset a r h =
      found-if_listed p.reserves_list (g asset) (is_listed p) p.reserve a r h

-- The assets that a loop over `assets` deals with.
abbrev pub selected : Bool → List (Option String) → List String
selected returns l = if returns then leading l else present l

pub selected-cons :
    (returns : Bool) (a : String) (l : List (Option String))
    → selected returns (some a ∷ l) ≡ a ∷ selected returns l
selected-cons true a l = refl
selected-cons false a l = refl
