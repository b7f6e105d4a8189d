-- ===== src/Setup/Helper.antt =====
-- `configureReserves` of contracts/deployments/ReservesSetupHelper.sol and
-- `configureReservesByHelper` of helpers/init-helpers.ts.
use paraspace_core.Prelude.{
  if◌then◌else◌, ◌==◌, ℕ, String, str_eq, Bool, true, false, not, Option, none, some, List, [], ◌∷◌,
  ◌++◌, ◌>>=◌, ℤ, pos, negsuc,
}
use paraspace_core.Chunk.{chunk}
use paraspace_core.Market.{ReserveParams}
use paraspace_core.Reserves.{
  Pool, Access, configure_reserve_as_collateral, set_liquidation_protocol_fee,
  set_reserve_borrowing, set_borrow_cap, set_supply_cap, set_reserve_factor,
}
use paraspace_core.Reserves.Configurator.{guard, execute}
use paraspace_core.Setup.{
  ConfigureReserveInput, SetupCall, add_pool_admin, remove_pool_admin, configure_reserves_call,
  World, Setting, address_of,
}

-- A number as an argument of type `uint256`: the encoder throws on a negative one.
abbrev pub to_uint : ℤ → Option ℕ
to_uint (pos n) = some n
to_uint (negsuc n) = none

-- The body of the loop of `configureReserves`: the helper calls the configurator.
unfoldable pub configure_reserve : Access → ConfigureReserveInput → ℕ → Pool → Option Pool
configure_reserve acl i ltv p =
    execute acl
      (configure_reserve_as_collateral i.asset ltv i.liquidation_threshold i.liquidation_bonus) p
    >>= (λ q.
        if i.liquidation_protocol_fee_percentage == 0
        then some q
        else execute acl
            (set_liquidation_protocol_fee i.asset i.liquidation_protocol_fee_percentage) q)
    >>= (λ q.
        if i.borrowing_enabled
        then execute acl (set_reserve_borrowing i.asset true) q
          >>= execute acl (set_borrow_cap i.asset i.borrow_cap)
        else some q)
    >>= execute acl (set_supply_cap i.asset i.supply_cap)
    >>= execute acl (set_reserve_factor i.asset i.reserve_factor)

unfoldable pub configure_loop : Access → List ConfigureReserveInput → Pool → Option Pool
configure_loop acl [] p = some p
configure_loop acl (i ∷ rest) p =
    to_uint i.base_ltv >>= (λ ltv. configure_reserve acl i ltv p) >>= configure_loop acl rest

-- The roles of the helper contract: of those, only the pool admin's is granted to it.
abbrev pub helper_access : Setting → (String → Bool) → Access
helper_access s admins = record {
  is_pool_admin = admins s.helper;
  is_emergency_admin = false;
  is_risk_admin = false;
  has_suppliers = s.has_suppliers;
  has_borrowers = s.has_borrowers;
}

-- `onlyOwner`, then the loop.
abbrev pub configure_reserves : Setting → List ConfigureReserveInput → World → Option World
configure_reserves s inputs w = guard (str_eq s.signer s.helper_owner) (
    configure_loop (helper_access s w.pool_admins) inputs w.pool
    >>= (λ p. some (record w { pool = p })))

-- `addPoolAdmin` and `removePoolAdmin` of ACLManager.sol.
abbrev pub set_pool_admin : Setting → String → Bool → World → Option World
set_pool_admin s account b w =
    guard s.administers_roles
      (some (record w { pool_admins = λ a. if str_eq a account then b else w.pool_admins a }))

abbrev pub to_input : String → ReserveParams → ConfigureReserveInput
to_input token_address params = record {
  asset = token_address;
  base_ltv = params.base_ltv_as_collateral;
  liquidation_protocol_fee_percentage = params.liquidation_protocol_fee_percentage;
  liquidation_threshold = params.liquidation_threshold;
  liquidation_bonus = params.liquidation_bonus;
  reserve_factor = params.reserve_factor;
  borrow_cap = params.borrow_cap;
  supply_cap = params.supply_cap;
  borrowing_enabled = params.borrowing_enabled;
}

-- `baseLTVAsCollateral === "-1"`
abbrev pub is_skipped : ReserveParams → Bool
is_skipped params = elim (params.base_ltv_as_collateral) [ pos n ↦ false | negsuc n ↦ n == 0 ]

-- `usageAsCollateralEnabled` of the data provider.
abbrev pub already_enabled : Pool → String → Bool
already_enabled p token = not ((p.reserve token).liquidation_threshold == 0)

-- The body of the loop that collects `inputParams`, and the loop.
abbrev pub add_input :
    Pool → Option String → ReserveParams → List ConfigureReserveInput → List ConfigureReserveInput
add_input p none params others = others
add_input p (some token) params others =
    if is_skipped params
    then others
    else if already_enabled p token
    then others
    else to_input token params ∷ others

unfoldable pub collect_inputs :
    Pool → List (String × String) → List (String × ReserveParams) → List ConfigureReserveInput
collect_inputs p tokens [] = []
collect_inputs p tokens ((symbol, params) ∷ rest) =
    add_input p (address_of tokens symbol) params (collect_inputs p tokens rest)

abbrev pub encode : SetupCall → World → World
encode c w = record w { encoded = w.encoded ++ c ∷ [] }

-- `try … catch (e) { console.error(e) }`
abbrev pub caught : World → Option World → World
caught w none = w
caught w (some w') = w'

-- `encodeFunctionData` throws on a chunk with a negative loan to value.
abbrev pub is_encodable : List ConfigureReserveInput → Bool
is_encodable [] = true
is_encodable (i ∷ rest) = elim (to_uint i.base_ltv) [ none ↦ false | some _ ↦ is_encodable rest ]

-- One round of the loop over the chunks; the dry runs here are those that keep the calls.
unfoldable pub configure_chunk : Setting → List ConfigureReserveInput → World → World
configure_chunk s inputs w =
    if s.dry_run
    then caught w (guard (is_encodable inputs) (some (encode (configure_reserves_call inputs) w)))
    else caught w (configure_reserves s inputs w)

unfoldable pub configure_chunks : Setting → List (List ConfigureReserveInput) → World → World
configure_chunks s [] w = w
configure_chunks s (inputs ∷ rest) w = configure_chunks s rest (configure_chunk s inputs w)

abbrev pub change_admin : Setting → Bool → World → Option World
change_admin s b w =
    if s.dry_run
    then some (encode (if b then add_pool_admin s.helper else remove_pool_admin s.helper) w)
    else set_pool_admin s s.helper b w

abbrev pub enable_chunks : ℕ
enable_chunks = 20

-- What follows on the collected inputs; `none` is an exception.
unfoldable pub submit_inputs : Setting → List ConfigureReserveInput → World → Option World
submit_inputs s [] w = some w
submit_inputs s (i ∷ inputs) w =
    change_admin s true w
    >>= (λ v. some (configure_chunks s (chunk (i ∷ inputs) enable_chunks) v))
    >>= change_admin s false

unfoldable pub configure_reserves_by_helper :
    Setting → List (String × ReserveParams) → List (String × String) → World → Option World
configure_reserves_by_helper s reserves tokens w =
    submit_inputs s (collect_inputs w.pool tokens reserves) w
