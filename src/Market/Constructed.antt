-- ===== src/Market/Constructed.antt =====
-- The contracts of the strategies accept the parameters of the tables.
use paraspace_core.Prelude.{leb, ◌^◌, String, Bool, true, ◌&&◌, All, ◌≡◌, refl, some, List, [], ◌∷◌}
use paraspace_core.Market.{Environment, ReserveParams, MarketConfig, InterestRateStrategyParams}
use paraspace_core.Market.Configs.{EthereumNetwork, paraspace_configs}
use paraspace_core.Market.Release.{is_constructed}
use paraspace_core.Market.Everywhere.{both, every, everywhere, everywhere-every}

-- The `require` in the constructor of DefaultReserveInterestRateStrategy.sol.
unfoldable pub is_rate_constructed : InterestRateStrategyParams → Bool
is_rate_constructed p = leb p.optimal_usage_ratio (10 ^ 27)

abbrev are_constructed : String × ReserveParams → Bool
are_constructed row =
    is_constructed (row.1).time_lock_strategy && is_rate_constructed (row.1).strategy

-- The deployments of the strategies of a row are accepted.
abbrev pub AreConstructed : String × ReserveParams → Type 0
AreConstructed row =
    (is_constructed (row.1).time_lock_strategy ≡ true)
    × (is_rate_constructed (row.1).strategy ≡ true)

tables_construct : (env : Environment) → everywhere are_constructed env ≡ true
unfolding is_constructed is_rate_constructed
tables_construct env = refl

rows-AreConstructed :
    (rows : List (String × ReserveParams))
    → every are_constructed rows ≡ true
    → All AreConstructed rows
rows-AreConstructed [] h = tt
rows-AreConstructed (row ∷ rows) h =
    let t = both (are_constructed row) (every are_constructed rows) h in
    (
      both (is_constructed (row.1).time_lock_strategy) (is_rate_constructed (row.1).strategy) t.0,
      rows-AreConstructed rows t.1,
    )

-- On every network that has a market, in every environment, the constructors of the time lock and
-- interest rate strategies accept the parameters of every reserve.
pub market-AreConstructed :
    (env : Environment) (n : EthereumNetwork) (m : MarketConfig)
    → paraspace_configs env n ≡ some m
    → All AreConstructed m.reserves_config
market-AreConstructed env n m known =
    rows-AreConstructed m.reserves_config
      (everywhere-every are_constructed env n m (tables_construct env) known)
