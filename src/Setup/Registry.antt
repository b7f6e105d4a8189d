-- ===== src/Setup/Registry.antt =====
-- The strategies of a kind that `initReservesByHelper` has at hand: an address for a name, found
-- again, taken from the arguments, or deployed.
use paraspace_core.Prelude.{
  if◌then◌else◌, ℕ, String, str_eq, Option, none, some, List, [], ◌∷◌, ◌++◌, length,
}
use paraspace_core.Market.Common.{zero_address}
use paraspace_core.Setup.{address_of}

-- The record of addresses by name, and what was deployed, in order.
pub record Registry {ℓ} (A : Type ℓ) : Type ℓ where
  pub addresses : List (String × String)
  pub deployed : List A

-- A kind of strategy: the name of its parameters, the name that stands for none, the address that
-- the caller gives for all of them, and the address of the n-th deployment.
pub record Kind {ℓ} (A : Type ℓ) : Type ℓ where
  pub name : A → String
  pub zero_name : String
  pub default : Option String
  pub address_at : ℕ → String

-- How a name without an address gets one.
pub data Provision : Type 0 where
  given : String → Provision
  fresh : Provision

module _ {ℓ} {A : Type ℓ} (kind : Kind A) where
  abbrev pub provision : A → Provision
  provision x =
      if str_eq (kind.name x) kind.zero_name
      then given zero_address
      else elim kind.default [ some address ↦ given address | none ↦ fresh ]

  -- `addresses[name] = …`, after a deployment if there is to be one.
  abbrev pub put : A → Provision → Registry A → Registry A
  put x (given address) r = record r { addresses = (kind.name x, address) ∷ r.addresses }
  put x fresh r = record {
    addresses = (kind.name x, kind.address_at (length r.deployed)) ∷ r.addresses;
    deployed = r.deployed ++ x ∷ [];
  }

  -- `if (!addresses[name]) { … }`
  abbrev pub put_unless : Option String → A → Registry A → Registry A
  put_unless (some _) x r = r
  put_unless none x r = put x (provision x) r

  unfoldable pub ensure : A → Registry A → Registry A
  ensure x r = put_unless (address_of r.addresses (kind.name x)) x r

  -- The loop over the reserves, of what concerns one kind.
  unfoldable pub ensure_all : List A → Registry A → Registry A
  ensure_all [] r = r
  ensure_all (x ∷ xs) r = ensure_all xs (ensure x r)
