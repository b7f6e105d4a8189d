-- ===== src/Setup/Sources.antt =====
-- Where the addresses of a registry come from, and that they stay.
use paraspace_core.Prelude.{
  if◌then◌else◌, ℕ, String, str_eq, Bool, true, false, Option, none, some, List, [], ◌∷◌, length,
  get_elem?, ◌≡◌, ◌∙◌, ◌⊎◌, refl, sym, subst, inl, inr, Bool-cases, eq_iff,
}
use paraspace_core.Market.Common.{zero_address}
use paraspace_core.Setup.{address_of}
use paraspace_core.Setup.Registry.{
  Registry, Kind, Provision, given, fresh, provision, put, put_unless, ensure, ensure_all,
}
use paraspace_core.Setup.Found.{get-last, get-own, get-older, address_of-own, address_of-other}

module _ {ℓ} {A : Type ℓ} (kind : Kind A) where
  -- An address that is no empty text; a deployment's address is its own.
  pub record IsAddressing : Type 0 where
    pub at-nonempty : (n : ℕ) → str_eq (kind.address_at n) "" ≡ false
    pub at-injective : (n m : ℕ) → kind.address_at n ≡ kind.address_at m → n ≡ m
    pub default-nonempty : (a : String) → kind.default ≡ some a → str_eq a "" ≡ false

  -- Each deployment is what its name leads to.
  abbrev pub IsKept : Registry A → Type ℓ
  IsKept r =
      (k : ℕ) (y : A)
      → get_elem? r.deployed k ≡ some y
      → address_of r.addresses (kind.name y) ≡ some (kind.address_at k)

  -- Where the address of a name comes from: the name that stands for none has the zero address; every
  -- other has the address that the caller gave, or a deployment for this name if the caller gave none.
  abbrev pub IsSource : Registry A → String → String → Type ℓ
  IsSource r n a =
      (n ≡ kind.zero_name) × (a ≡ zero_address)
      ⊎ (str_eq n kind.zero_name ≡ false) × (kind.default ≡ some a)
      ⊎ (str_eq n kind.zero_name ≡ false)
        × (kind.default ≡ none)
        × (k : ℕ) × (y : A) × (get_elem? r.deployed k ≡ some y)
        × (kind.name y ≡ n)
        × (a ≡ kind.address_at k)

  abbrev pub Sourced : Registry A → Type ℓ
  Sourced r = (n a : String) → address_of r.addresses n ≡ some a → IsSource r n a

  put-keeps :
      (x : A) (p : Provision) (r : Registry A)
      → IsAddressing
      → address_of r.addresses (kind.name x) ≡ none
      → IsKept r
      → IsKept (put kind x p r)
  put-keeps x (given a) r h new kept k y e =
      address_of-other r.addresses (kind.name x) a (kind.name y) (kind.address_at k) new
        (kept k y e)
  put-keeps x fresh r h new kept k y e = elim (get-last r.deployed x y k e) [
    | inl old ↦
        address_of-other r.addresses (kind.name x) (kind.address_at (length r.deployed))
          (kind.name y) (kind.address_at k) new (kept k y old)
    | inr (at, same) ↦
        rw (at, ← same)
          (address_of-own r.addresses (kind.name x) (kind.address_at (length r.deployed))
            (h.at-nonempty (length r.deployed)))
  ]

  ensure-keeps : (x : A) (r : Registry A) → IsAddressing → IsKept r → IsKept (ensure kind x r)
  unfolding ensure
  ensure-keeps x r h kept = go (address_of r.addresses (kind.name x)) refl
    where
      go :
          (o : Option String)
          → address_of r.addresses (kind.name x) ≡ o
          → IsKept (put_unless kind o x r)
      go (some a) e = kept
      go none e = put-keeps x (provision kind x) r h e kept

  pub ensure_all-keeps :
      (xs : List A) (r : Registry A) → IsAddressing → IsKept r → IsKept (ensure_all kind xs r)
  unfolding ensure_all
  ensure_all-keeps [] r h kept = kept
  ensure_all-keeps (x ∷ xs) r h kept =
      ensure_all-keeps xs (ensure kind x r) h (ensure-keeps x r h kept)

  -- A source stays one after more deployments.
  IsSource-put :
      (x : A) (p : Provision) (r : Registry A) (n a : String)
      → IsSource r n a
      → IsSource (put kind x p r) n a
  IsSource-put x (given b) r n a h = h
  IsSource-put x fresh r n a (inl h) = inl h
  IsSource-put x fresh r n a (inr (inl h)) = inr (inl h)
  IsSource-put x fresh r n a (inr (inr (z, d, k, y, e, m, b))) =
      inr (inr (z, d, k, y, get-older r.deployed x y k e, m, b))

  provision-IsSource :
      (x : A) (r : Registry A) (a : String)
      → IsAddressing
      → provision kind x ≡ given a
      → IsSource r (kind.name x) a × (str_eq a "" ≡ false)
  provision-IsSource x r a h e = go (str_eq (kind.name x) kind.zero_name) refl kind.default refl e
    where
      go :
          (b : Bool)
          → str_eq (kind.name x) kind.zero_name ≡ b
          → (o : Option String) → kind.default ≡ o
          → (if b
              then given zero_address
              else elim o [ some address ↦ given address | none ↦ fresh ])
            ≡ given a
          → IsSource r (kind.name x) a × (str_eq a "" ≡ false)
      go true t o d e' =
          let same : zero_address ≡ a = cc in
          (inl ((eq_iff (kind.name x) kind.zero_name).0 t, sym same), rw⁻¹ same refl)
      go false t (some b) d e' =
          let same : b ≡ a = cc in
          let d' : kind.default ≡ some a = cc in (inr (inl (t, d')), h.default-nonempty a d')
      go false t none d e' = cc

  -- What is deployed has no other address to take.
  provision-fresh :
      (x : A)
      → provision kind x ≡ fresh
      → (str_eq (kind.name x) kind.zero_name ≡ false) × (kind.default ≡ none)
  provision-fresh x e = go (str_eq (kind.name x) kind.zero_name) refl kind.default refl e
    where
      go :
          (b : Bool)
          → str_eq (kind.name x) kind.zero_name ≡ b
          → (o : Option String) → kind.default ≡ o
          → (if b
              then given zero_address
              else elim o [ some address ↦ given address | none ↦ fresh ])
            ≡ fresh
          → (str_eq (kind.name x) kind.zero_name ≡ false) × (kind.default ≡ none)
      go true t o d e' = cc
      go false t (some b) d e' = cc
      go false t none d e' = (t, d)

  address-of-put : A → Provision → Registry A → String
  address-of-put x (given a) r = a
  address-of-put x fresh r = kind.address_at (length r.deployed)

  put-IsSource :
      (x : A) (p : Provision) (r : Registry A)
      → IsAddressing
      → provision kind x ≡ p
      → IsSource (put kind x p r) (kind.name x) (address-of-put x p r)
        × (address_of (put kind x p r).addresses (kind.name x) ≡ some (address-of-put x p r))
  unfolding address-of-put
  put-IsSource x (given a) r h e =
      let t = provision-IsSource x r a h e in (t.0, address_of-own r.addresses (kind.name x) a t.1)
  put-IsSource x fresh r h e = (
    inr (
        inr (
          (provision-fresh x e).0,
          (provision-fresh x e).1,
          length r.deployed,
          x,
          get-own r.deployed x,
          refl,
          refl,
        )),
    address_of-own r.addresses (kind.name x) (kind.address_at (length r.deployed))
        (h.at-nonempty (length r.deployed)),
  )

  put-other :
      (x : A) (p : Provision) (r : Registry A) (n : String)
      → str_eq (kind.name x) n ≡ false
      → address_of (put kind x p r).addresses n ≡ address_of r.addresses n
  unfolding address_of
  put-other x (given a) r n h = rw h refl
  put-other x fresh r n h = rw h refl

  put-Sourced :
      (x : A) (p : Provision) (r : Registry A)
      → IsAddressing
      → provision kind x ≡ p
      → Sourced r
      → Sourced (put kind x p r)
  put-Sourced x p r h e old n a known = elim (Bool-cases (str_eq (kind.name x) n)) [
    | inl t ↦
        let own = put-IsSource x p r h e in
        let same : kind.name x ≡ n = (eq_iff (kind.name x) n).0 t in
        let there : address_of (put kind x p r).addresses n ≡ some (address-of-put x p r) =
          subst (λ m. address_of (put kind x p r).addresses m ≡ some (address-of-put x p r)) same
            own.1 in
        let value : address-of-put x p r ≡ a = cc in
        subst (λ b. IsSource (put kind x p r) n b) value
          (subst (λ m. IsSource (put kind x p r) m (address-of-put x p r)) same own.0)
    | inr t ↦ IsSource-put x p r n a (old n a (sym (put-other x p r n t) ∙ known))
  ]

  pub ensure-Sourced :
      (x : A) (r : Registry A) → IsAddressing → Sourced r → Sourced (ensure kind x r)
  unfolding ensure
  ensure-Sourced x r h old = go (address_of r.addresses (kind.name x))
    where
      go : (o : Option String) → Sourced (put_unless kind o x r)
      go (some a) = old
      go none = put-Sourced x (provision kind x) r h refl old

  pub ensure_all-Sourced :
      (xs : List A) (r : Registry A) → IsAddressing → Sourced r → Sourced (ensure_all kind xs r)
  unfolding ensure_all
  ensure_all-Sourced [] r h old = old
  ensure_all-Sourced (x ∷ xs) r h old =
      ensure_all-Sourced xs (ensure kind x r) h (ensure-Sourced x r h old)

  -- An address that a name has got stays its address.
  ensure-stays :
      (x : A) (r : Registry A) (n a : String)
      → address_of r.addresses n ≡ some a
      → address_of (ensure kind x r).addresses n ≡ some a
  unfolding ensure
  ensure-stays x r n a known = go (address_of r.addresses (kind.name x)) refl (provision kind x)
    where
      put-stays :
          (p : Provision)
          → address_of r.addresses (kind.name x) ≡ none
          → address_of (put kind x p r).addresses n ≡ some a
      put-stays (given b) e = address_of-other r.addresses (kind.name x) b n a e known
      put-stays fresh e =
          address_of-other r.addresses (kind.name x) (kind.address_at (length r.deployed)) n a e
            known

      go :
          (o : Option String)
          → address_of r.addresses (kind.name x) ≡ o
          → (p : Provision) → address_of (put_unless kind o x r).addresses n ≡ some a
      go (some b) e p = known
      go none e p = put-stays (provision kind x) e

  pub ensure_all-stays :
      (xs : List A) (r : Registry A) (n a : String)
      → address_of r.addresses n ≡ some a
      → address_of (ensure_all kind xs r).addresses n ≡ some a
  unfolding ensure_all
  ensure_all-stays [] r n a known = known
  ensure_all-stays (x ∷ xs) r n a known =
      ensure_all-stays xs (ensure kind x r) n a (ensure-stays x r n a known)

  pub ensure-gives :
      (x : A) (r : Registry A)
      → IsAddressing
      → (a : String) × (address_of (ensure kind x r).addresses (kind.name x) ≡ some a)
  unfolding ensure
  ensure-gives x r h = go (address_of r.addresses (kind.name x)) refl
    where
      go :
          (o : Option String)
          → address_of r.addresses (kind.name x) ≡ o
          → (a : String) × (address_of (put_unless kind o x r).addresses (kind.name x) ≡ some a)
      go (some a) e = (a, e)
      go none e =
          (address-of-put x (provision kind x) r, (put-IsSource x (provision kind x) r h refl).1)
