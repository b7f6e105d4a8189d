-- ===== src/Market/Everywhere.antt =====
-- A test of the reserves of every market at once.
use paraspace_core.Prelude.{
  ℕ, zero, suc, String, Bool, true, false, ◌&&◌, Option, none, some, List, [], ◌∷◌, get_elem?, All,
  ◌≡◌, refl, subst,
}
use paraspace_core.Market.{Environment, ReserveParams, MarketConfig}
use paraspace_core.Market.Configs.{
  EthereumNetwork, ropsten, goerli, sepolia, mainnet, hardhat, tenderly_main, ganache, parallel,
  localhost, anvil, moonbeam, moonbase, arbitrum, arbitrum_goerli, arbitrum_sepolia, parallel_dev,
  polygon, polygon_mumbai, polygon_zkevm, polygon_zkevm_goerli, zksync, zksync_goerli, linea,
  linea_goerli, neon, paraspace_configs,
}

abbrev networks : List EthereumNetwork
networks =
    ropsten ∷ goerli ∷ sepolia ∷ mainnet ∷ hardhat ∷ tenderly_main ∷ ganache ∷ parallel ∷ localhost
    ∷ anvil ∷ moonbeam ∷ moonbase ∷ arbitrum ∷ arbitrum_goerli ∷ arbitrum_sepolia ∷ parallel_dev
    ∷ polygon ∷ polygon_mumbai ∷ polygon_zkevm ∷ polygon_zkevm_goerli ∷ zksync ∷ zksync_goerli
    ∷ linea ∷ linea_goerli ∷ neon ∷ []

abbrev index : EthereumNetwork → ℕ
index ropsten = 0
index goerli = 1
index sepolia = 2
index mainnet = 3
index hardhat = 4
index tenderly_main = 5
index ganache = 6
index parallel = 7
index localhost = 8
index anvil = 9
index moonbeam = 10
index moonbase = 11
index arbitrum = 12
index arbitrum_goerli = 13
index arbitrum_sepolia = 14
index parallel_dev = 15
index polygon = 16
index polygon_mumbai = 17
index polygon_zkevm = 18
index polygon_zkevm_goerli = 19
index zksync = 20
index zksync_goerli = 21
index linea = 22
index linea_goerli = 23
index neon = 24

get-index : (n : EthereumNetwork) → get_elem? networks (index n) ≡ some n
get-index ropsten = refl
get-index goerli = refl
get-index sepolia = refl
get-index mainnet = refl
get-index hardhat = refl
get-index tenderly_main = refl
get-index ganache = refl
get-index parallel = refl
get-index localhost = refl
get-index anvil = refl
get-index moonbeam = refl
get-index moonbase = refl
get-index arbitrum = refl
get-index arbitrum_goerli = refl
get-index arbitrum_sepolia = refl
get-index parallel_dev = refl
get-index polygon = refl
get-index polygon_mumbai = refl
get-index polygon_zkevm = refl
get-index polygon_zkevm_goerli = refl
get-index zksync = refl
get-index zksync_goerli = refl
get-index linea = refl
get-index linea_goerli = refl
get-index neon = refl

pub both : (a b : Bool) → a && b ≡ true → (a ≡ true) × (b ≡ true)
both true b h = (refl, h)
both false b h = cc

-- A test of a row, on all rows of a table.
abbrev pub every {ℓ} : {A : Type ℓ} → (A → Bool) → List A → Bool
every f [] = true
every f (x ∷ l) = f x && every f l

pub every-All {ℓ} :
    {A : Type ℓ} (f : A → Bool) (l : List A) → every f l ≡ true → All (λ x. f x ≡ true) l
every-All f [] h = tt
every-All f (x ∷ l) h = let t = both (f x) (every f l) h in (t.0, every-All f l t.1)

every-get {ℓ} :
    {A : Type ℓ} (f : A → Bool) (l : List A) (i : ℕ) (x : A)
    → every f l ≡ true
    → get_elem? l i ≡ some x
    → f x ≡ true
every-get f [] i x h e = cc
every-get f (y ∷ l) zero x h e =
    let same : y ≡ x = cc in subst (λ z. f z ≡ true) same (both (f y) (every f l) h).0
every-get f (y ∷ l) (suc i) x h e = every-get f l i x (both (f y) (every f l) h).1 e

abbrev pub at_market : (String × ReserveParams → Bool) → Option MarketConfig → Bool
at_market f none = true
at_market f (some m) = every f m.reserves_config

-- A test of a row, on the rows of every market.
abbrev pub everywhere : (String × ReserveParams → Bool) → Environment → Bool
everywhere f env = every (λ n. at_market f (paraspace_configs env n)) networks

pub everywhere-every :
    (f : String × ReserveParams → Bool) (env : Environment) (n : EthereumNetwork) (m : MarketConfig)
    → everywhere f env ≡ true
    → paraspace_configs env n ≡ some m
    → every f m.reserves_config ≡ true
everywhere-every f env n m h known =
    subst (λ o. at_market f o ≡ true) known
      (every-get (λ k. at_market f (paraspace_configs env k)) networks (index n) n h (get-index n))
