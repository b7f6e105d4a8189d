-- ===== src/Setup/Tables.antt =====
-- The tables of market-config against the configurator: every reserve of every market.
use paraspace_core.Prelude.{
  leb, ℕ, String, str_eq, Bool, true, false, ◌&&◌, some, List, [], ◌∷◌, ℤ, pos, negsuc, ◌≡◌, arith,
  refl, sym, ap, subst, All, ◌∙◌, fun_ext,
}
use paraspace_core.Market.{Environment, ReserveParams, MarketConfig}
use paraspace_core.Market.Configs.{EthereumNetwork, paraspace_configs}
use paraspace_core.Market.Everywhere.{both, every, everywhere, everywhere-every}
use paraspace_core.Reserves.{Pool, Access}
use paraspace_core.Reserves.Configurator.{
  are_valid, percent_mul, percentage_factor, max_valid_percentage, max_valid_cap,
}
use paraspace_core.Setup.{World, Setting, address_of}
use paraspace_core.Setup.Helper.{
  is_skipped, to_input, collect_inputs, helper_access, configure_reserves_by_helper,
}
use paraspace_core.Setup.Collected.{add_input-All}
use paraspace_core.Setup.Described.{IsWanted, described_pool, collect_inputs-after}
use paraspace_core.Setup.Writes.{IsAcceptable, HasReserve}
use paraspace_core.Setup.Configured.{loan, IsReady}
use paraspace_core.Setup.Batches.{granted, submit_inputs-configures}

-- A signer in a market without suppliers.
abbrev fresh : Access
fresh = record {
  is_pool_admin = true;
  is_emergency_admin = false;
  is_risk_admin = false;
  has_suppliers = λ _. false;
  has_borrowers = λ _. false;
}

-- What the configurator asks of the numbers of a reserve without suppliers.
abbrev accepts_loan : ReserveParams → ℤ → Bool
accepts_loan r (negsuc n) = false
accepts_loan r (pos ltv) =
    leb ltv r.liquidation_threshold
    && are_valid fresh "" r.liquidation_threshold r.liquidation_bonus
    && leb ltv max_valid_percentage
    && leb r.liquidation_threshold max_valid_percentage
    && leb r.liquidation_bonus max_valid_percentage
    && leb r.liquidation_protocol_fee_percentage percentage_factor
    && leb r.borrow_cap max_valid_cap
    && leb r.supply_cap max_valid_cap
    && leb r.reserve_factor percentage_factor

abbrev accepts : ReserveParams → Bool
accepts r = accepts_loan r r.base_ltv_as_collateral

abbrev accepts_row : String × ReserveParams → Bool
accepts_row row = accepts row.1

tables_accepted : (env : Environment) → everywhere accepts_row env ≡ true
unfolding are_valid percent_mul
tables_accepted env = refl

are_valid-fresh :
    (acl : Access) (a : String) (t b : ℕ)
    → acl.has_suppliers a ≡ false
    → are_valid fresh "" t b ≡ true
    → are_valid acl a t b ≡ true
unfolding are_valid
are_valid-fresh acl a t b h valid = rw h valid

-- The parts of a conjunction of nine tests.
nine :
    (a b c d e f g h i : Bool)
    → a && b && c && d && e && f && g && h && i ≡ true
    → (a ≡ true)
      × (b ≡ true)
      × (c ≡ true)
      × (d ≡ true)
      × (e ≡ true)
      × (f ≡ true)
      × (g ≡ true)
      × (h ≡ true)
      × (i ≡ true)
nine a b c d e f g h i p = (
  ground arith,
  ground arith,
  ground arith,
  ground arith,
  ground arith,
  ground arith,
  ground arith,
  ground arith,
  ground arith,
)

accepts-IsAcceptable :
    (acl : Access) (a : String) (r : ReserveParams)
    → acl.has_suppliers a ≡ false
    → accepts r ≡ true
    → IsAcceptable acl (to_input a r) (loan (to_input a r))
accepts-IsAcceptable acl a r unsupplied h = go r.base_ltv_as_collateral refl h
  where
    go :
        (z : ℤ)
        → r.base_ltv_as_collateral ≡ z
        → accepts_loan r z ≡ true
        → IsAcceptable acl (to_input a r) (loan (to_input a r))
    go (negsuc n) e k = cc
    go (pos n) e k =
        let t =
          nine (leb n r.liquidation_threshold)
            (are_valid fresh "" r.liquidation_threshold r.liquidation_bonus)
            (leb n max_valid_percentage) (leb r.liquidation_threshold max_valid_percentage)
            (leb r.liquidation_bonus max_valid_percentage)
            (leb r.liquidation_protocol_fee_percentage percentage_factor)
            (leb r.borrow_cap max_valid_cap) (leb r.supply_cap max_valid_cap)
            (leb r.reserve_factor percentage_factor) k in
        let same : loan (to_input a r) ≡ n = ap (λ z. elim z [ pos m ↦ m | negsuc m ↦ 0 ]) e in
        subst (IsAcceptable acl (to_input a r)) (sym same) (record {
          is_loan = e;
          loan_below = t.0;
          collateral =
              are_valid-fresh acl a r.liquidation_threshold r.liquidation_bonus unsupplied t.1;
          loan_fits = t.2;
          threshold_fits = t.3;
          bonus_fits = t.4;
          fee_fits = t.5;
          borrow_cap_fits = t.6;
          supply_cap_fits = t.7;
          factor_fits = t.8;
        })

-- What the start of a market provides: the pool lists every token and no reserve has suppliers.
pub record IsFresh (s : Setting) (p : Pool) (tokens : List (String × String)) : Type 0 where
  pub lists : (symbol token : String) → address_of tokens symbol ≡ some token → HasReserve p token
  pub unsupplied : (a : String) → s.has_suppliers a ≡ false

collect_inputs-IsReady :
    (s : Setting) (admins : String → Bool) (p : Pool) (tokens : List (String × String))
    (rows : List (String × ReserveParams))
    → IsFresh s p tokens
    → every accepts_row rows ≡ true
    → All (IsReady (helper_access s admins) p) (collect_inputs p tokens rows)
unfolding collect_inputs
collect_inputs-IsReady s admins p tokens [] new h = tt
collect_inputs-IsReady s admins p tokens ((symbol, r) ∷ rows) new h =
    let parts = both (accepts r) (every accepts_row rows) h in
    add_input-All (IsReady (helper_access s admins) p) p (address_of tokens symbol) r
      (collect_inputs p tokens rows)
      (λ token e. (
        new.lists symbol token e,
        accepts-IsAcceptable (helper_access s admins) token r (new.unsupplied token) parts.0,
      ))
      (collect_inputs-IsReady s admins p tokens rows new parts.1)

accepts-IsWanted :
    (rows : List (String × ReserveParams)) → every accepts_row rows ≡ true → All IsWanted rows
accepts-IsWanted [] h = tt
accepts-IsWanted ((symbol, r) ∷ rows) h =
    let parts = both (accepts r) (every accepts_row rows) h in
    (loan-IsWanted r r.base_ltv_as_collateral refl parts.0, accepts-IsWanted rows parts.1)
  where
    loan-IsWanted :
        (r : ReserveParams) (z : ℤ)
        → r.base_ltv_as_collateral ≡ z
        → accepts_loan r z ≡ true
        → is_skipped r ≡ false
    loan-IsWanted r (negsuc n) e k = cc
    loan-IsWanted r (pos n) e k = rw e refl

-- On every network that has a market, in every environment: where the configuration of its reserves
-- runs live, on a pool that lists the tokens and has no suppliers, by the owner of the helper contract
-- who administers the roles, it comes to its end. Afterwards every reserve whose liquidation threshold was
-- zero has the numbers of the rows of the market's table for its token, the later over the earlier,
-- and is as before where no row has its token; the others and the rest of the pool are as before.
pub market-configured :
    (env : Environment) (n : EthereumNetwork) (m : MarketConfig) (s : Setting)
    (tokens : List (String × String)) (w : World)
    → paraspace_configs env n ≡ some m
    → s.dry_run ≡ false
    → s.administers_roles ≡ true
    → str_eq s.signer s.helper_owner ≡ true
    → IsFresh s w.pool tokens
    → (v : World) × (configure_reserves_by_helper s m.reserves_config tokens w ≡ some v)
      × (v.pool ≡ described_pool tokens m.reserves_config w.pool)
unfolding configure_reserves_by_helper
market-configured env n m s tokens w known live roles owned new =
    let ok = everywhere-every accepts_row env n m (tables_accepted env) known in
    let (v, ends, reached) =
      submit_inputs-configures s (collect_inputs w.pool tokens m.reserves_config) w live roles owned
        (collect_inputs-IsReady s (granted s w).pool_admins w.pool tokens m.reserves_config new
          ok) in
    (
      v,
      ends,
      reached
          ∙ ap (λ f. record w.pool { reserve = f })
              (fun_ext (λ k.
                collect_inputs-after w.pool tokens k m.reserves_config
                  (accepts-IsWanted m.reserves_config ok))),
    )
