-- ===== src/Setup/Once.antt =====
-- Every name gets one address, and what is deployed for a name is deployed once.
use paraspace_core.Prelude.{ℕ, String, some, List, [], ◌∷◌, get_elem?, ◌≡◌, All}
use paraspace_core.Setup.{address_of}
use paraspace_core.Setup.Registry.{Registry, Kind, ensure, ensure_all}
use paraspace_core.Setup.Sources.{
  IsAddressing, IsSource, Sourced, ensure_all-keeps, ensure-Sourced, ensure_all-Sourced,
  ensure_all-stays, ensure-gives,
}

module _ {ℓ} {A : Type ℓ} (kind : Kind A) where
  -- A name ends with the address that it has after its first row, and the address has a source.
  abbrev pub Serves : Registry A → A → Type ℓ
  Serves r x =
      (a : String) × (address_of r.addresses (kind.name x) ≡ some a)
      × IsSource kind r (kind.name x) a

  serves :
      (xs : List A) (r : Registry A)
      → IsAddressing kind
      → Sourced kind r
      → All (Serves (ensure_all kind xs r)) xs
  unfolding ensure_all
  serves [] r h old = tt
  serves (x ∷ xs) r h old =
      let got = ensure-gives kind x r h in
      let final = ensure_all-stays kind xs (ensure kind x r) (kind.name x) got.0 got.1 in
      (
        (got.0, final, ensure_all-Sourced kind (x ∷ xs) r h old (kind.name x) got.0 final),
        serves xs (ensure kind x r) h (ensure-Sourced kind x r h old),
      )

  abbrev pub empty : Registry A
  empty = record { addresses = []; deployed = [] }

  -- Where addresses are no empty texts and those of deployments differ, after the loop every
  -- strategy's name has an address: the zero address if it is the name that stands for none; else the
  -- address that the caller gave; and if the caller gave none, that of a deployment for this name.
  pub ensure_all-Serves :
      (xs : List A) → IsAddressing kind → All (Serves (ensure_all kind xs empty)) xs
  unfolding address_of
  ensure_all-Serves xs h = serves xs empty h (λ n a e. cc)

  -- No name is deployed twice: two deployments for one name are the same.
  pub ensure_all-once :
      (xs : List A) (k l : ℕ) (x y : A)
      → IsAddressing kind
      → get_elem? (ensure_all kind xs empty).deployed k ≡ some x
      → get_elem? (ensure_all kind xs empty).deployed l ≡ some y
      → kind.name x ≡ kind.name y
      → k ≡ l
  ensure_all-once xs k l x y h ek el same =
      let kept = ensure_all-keeps kind xs empty h (λ k y e. cc) in
      let ax = kept k x ek in let ay = kept l y el in h.at-injective k l cc
