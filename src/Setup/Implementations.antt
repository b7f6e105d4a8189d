-- ===== src/Setup/Implementations.antt =====
-- The token implementations that the reserves of the markets get.
use paraspace_core.Prelude.{
  String, str_eq, Bool, true, false, ◌||◌, some, List, [], ◌∷◌, ◌≡◌, ◌⊎◌, refl, inl, inr, All,
  eq_iff,
}
use paraspace_core.Market.{Environment, ReserveParams, MarketConfig, contract_id_text}
use paraspace_core.Market.Configs.{EthereumNetwork, paraspace_configs}
use paraspace_core.Market.Everywhere.{both, every, everywhere, everywhere-every}
use paraspace_core.Setup.Init.{x_token_type}
use paraspace_core.Setup.Tokens.{x_token_for, generic_impl, nft_impl}

-- The symbols whose implementation is not the one that the tables name.
abbrev pub is_apart : String → Bool
is_apart symbol = str_eq symbol "bendETH" || str_eq symbol "OTHR" || str_eq symbol "BLOCKS"

-- The implementation is the one that the row names.
abbrev pub IsNamed : String × ReserveParams → Type 0
IsNamed row =
    x_token_for (x_token_type (row.1).x_token_impl) row.0 ≡ contract_id_text (row.1).x_token_impl

abbrev agrees : String × ReserveParams → Bool
agrees row =
    is_apart row.0
    || str_eq (x_token_for (x_token_type (row.1).x_token_impl) row.0)
        (contract_id_text (row.1).x_token_impl)

tables_agree : (env : Environment) → everywhere agrees env ≡ true
unfolding generic_impl nft_impl
tables_agree env = refl

either : (a b : Bool) → a || b ≡ true → (a ≡ true) ⊎ (b ≡ true)
either true b h = inl refl
either false b h = inr h

agree-All :
    (rows : List (String × ReserveParams))
    → every agrees rows ≡ true
    → All (λ row. (is_apart row.0 ≡ true) ⊎ IsNamed row) rows
agree-All [] h = tt
agree-All (row ∷ rows) h =
    let parts = both (agrees row) (every agrees rows) h in
    let named = x_token_for (x_token_type (row.1).x_token_impl) row.0 in
    let text = contract_id_text (row.1).x_token_impl in
    (
      elim (either (is_apart row.0) (str_eq named text) parts.0) [
        | inl t ↦ inl t
        | inr t ↦ inr ((eq_iff named text).0 t)
      ],
      agree-All rows parts.1,
    )

-- On every network that has a market, in every environment, the implementation that the script chooses by the
-- symbol of a reserve is the one that the market's table names, but for bendETH, OTHR and BLOCKS.
pub x_token_for-IsNamed :
    (env : Environment) (n : EthereumNetwork) (m : MarketConfig)
    → paraspace_configs env n ≡ some m
    → All (λ row. (is_apart row.0 ≡ true) ⊎ IsNamed row) m.reserves_config
x_token_for-IsNamed env n m known =
    agree-All m.reserves_config (everywhere-every agrees env n m (tables_agree env) known)
