-- ===== src/Setup/Examples.antt =====
-- Registries and chunks of concrete markets, and the theorems there.
use Prim.Native.String.{◌∷◌ as cons, [] as empty_text}
use Prim.Native.Char.{nul}
use paraspace_core.Prelude.{
  ℕ, zero, suc, String, str_eq, not, ◌&&◌, true, false, none, some, List, [], ◌∷◌, get_elem?, ◌≡◌,
  ◌⊎◌, refl, sym, ◌∙◌, ap, inl, arith, inr, Bool-cases, All, map, eq_iff,
}
use paraspace_core.Market.{Environment, ReserveParams, MarketConfig, InterestRateStrategyParams}
use paraspace_core.Market.Common.{common_config}
use paraspace_core.Market.Params.{strategy_weth, strategy_dai}
use paraspace_core.Market.Rates.{rate_strategy_weth, rate_strategy_dai}
use paraspace_core.Market.Configs.{mainnet, paraspace_configs}
use paraspace_core.Setup.{address_of}
use paraspace_core.Setup.Registry.{ensure, ensure_all}
use paraspace_core.Setup.Sources.{IsAddressing}
use paraspace_core.Setup.Once.{Serves, empty, ensure_all-once, ensure_all-Serves}
use paraspace_core.Setup.Init.{
  Deployer, Naming, Registries, InitRow, rate_kind, auction_kind, time_lock_kind, collect_rows,
}
use paraspace_core.Setup.Rows.{present, addresses_of, look_up_all, collect_rows-final}
use paraspace_core.Setup.Tokens.{Progress, Chain}
use paraspace_core.Setup.Implementations.{is_apart, IsNamed, x_token_for-IsNamed}

-- An address for each number: a text of that length.
abbrev address_at : ℕ → String
address_at zero = cons nul empty_text
address_at (suc n) = cons nul (address_at n)

abbrev size : String → ℕ
size empty_text = 0
size (cons c s) = suc (size s)

size-address_at : (n : ℕ) → size (address_at n) ≡ suc n
size-address_at zero = refl
size-address_at (suc n) = ap suc (size-address_at n)

at-injective : (n m : ℕ) → address_at n ≡ address_at m → n ≡ m
at-injective n m h =
    let e : suc n ≡ suc m = sym (size-address_at n) ∙ ap size h ∙ size-address_at m in omega arith

at-nonempty : (n : ℕ) → str_eq (address_at n) "" ≡ false
at-nonempty n = elim (Bool-cases (str_eq (address_at n) "")) [
  | inr t ↦ t
  | inl t ↦
      let e : suc n ≡ 0 = sym (size-address_at n) ∙ ap size ((eq_iff (address_at n) "").0 t) in
      absurd (omega arith)
]

-- A caller that gives one address for all auction strategies.
abbrev deployer : Deployer
deployer = record {
  default_rate = none;
  default_auction = some "0xauction";
  default_time_lock = none;
  rate_at = address_at;
  auction_at = address_at;
  time_lock_at = address_at;
}

rates-IsAddressing : IsAddressing (rate_kind deployer)
rates-IsAddressing = record {
  at-nonempty = at-nonempty;
  at-injective = at-injective;
  default-nonempty = λ a h. cc;
}

auctions-IsAddressing : IsAddressing (auction_kind deployer)
auctions-IsAddressing = record {
  at-nonempty = at-nonempty;
  at-injective = at-injective;
  default-nonempty = λ a h. let e : "0xauction" ≡ a = cc in rw⁻¹ e refl;
}

time_locks-IsAddressing : IsAddressing (time_lock_kind deployer)
time_locks-IsAddressing = record {
  at-nonempty = at-nonempty;
  at-injective = at-injective;
  default-nonempty = λ a h. cc;
}

abbrev no_registries : Registries
no_registries = record {
  rates = empty (rate_kind deployer);
  auctions = empty (auction_kind deployer);
  time_locks = empty (time_lock_kind deployer);
}

abbrev rows : List (String × ReserveParams)
rows = ("WETH", strategy_weth) ∷ ("DAI", strategy_dai) ∷ ("aWETH", strategy_weth) ∷ []

abbrev tokens : List (String × String)
tokens = ("WETH", "0xweth") ∷ ("aWETH", "0xaweth") ∷ []

collect_rows-final_example :
    map (addresses_of deployer) (collect_rows deployer tokens rows no_registries).1
    ≡ map
        (look_up_all deployer (collect_rows deployer tokens rows no_registries).0)
        (present tokens rows)
collect_rows-final_example =
    collect_rows-final deployer tokens rows no_registries
      (rates-IsAddressing, auctions-IsAddressing, time_locks-IsAddressing)

abbrev rates : List InterestRateStrategyParams
rates = rate_strategy_weth ∷ rate_strategy_dai ∷ rate_strategy_weth ∷ []

ensure_all-Serves_example :
    All
      (Serves
        (rate_kind deployer)
        (ensure_all (rate_kind deployer) rates (empty (rate_kind deployer))))
      rates
ensure_all-Serves_example = ensure_all-Serves (rate_kind deployer) rates rates-IsAddressing

-- The third strategy is the first, and is found.
deployed_test :
    (ensure_all (rate_kind deployer) rates (empty (rate_kind deployer))).deployed
    ≡ rate_strategy_weth ∷ rate_strategy_dai ∷ []
unfolding ensure_all ensure address_of
deployed_test = refl

second_test :
    get_elem? (ensure_all (rate_kind deployer) rates (empty (rate_kind deployer))).deployed 1
    ≡ some rate_strategy_dai
second_test = rw deployed_test refl

ensure_all-once_example : ◌≡◌ {A = ℕ} 1 1
ensure_all-once_example =
    ensure_all-once (rate_kind deployer) rates 1 1 rate_strategy_dai rate_strategy_dai
      rates-IsAddressing second_test second_test refl

abbrev environment : Environment
environment = record { multi_send = ""; multi_sig = "" }

abbrev market : MarketConfig
market = elim (paraspace_configs environment mainnet) [
  | none ↦ common_config environment
  | some m ↦ m
]

x_token_for-IsNamed_example :
    All (λ row. (is_apart row.0 ≡ true) ⊎ IsNamed row) market.reserves_config
x_token_for-IsNamed_example = x_token_for-IsNamed environment mainnet market refl

abbrev naming : Naming
naming = record {
  x_token_name_prefix = market.p_token_name_prefix;
  variable_debt_token_name_prefix = market.variable_debt_token_name_prefix;
  symbol_prefix = market.symbol_prefix;
  treasury_address = market.treasury;
  incentives_controller_address = market.incentives_controller;
}

abbrev begin : Progress
begin = record {
  x_tokens = [];
  listed = [];
  implementations = record { addresses = []; deployed = [] };
  encoded = [];
}

abbrev all_rows : List InitRow
all_rows = (collect_rows deployer market.tokens market.reserves_config no_registries).1

-- A signer who may list, and tokens that can be created over every implementation there is.
abbrev chain : Chain
chain = record {
  may_list = true;
  creates = λ i. not (str_eq i.x_token_impl "") && not (str_eq i.variable_debt_token_impl "");
}
