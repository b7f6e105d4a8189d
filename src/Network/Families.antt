-- ===== src/Network/Families.antt =====
-- Which network a node is on: at most one predicate holds.
use paraspace_core.Prelude.{
  if◌then◌else◌, ℕ, String, str_eq, eq_iff, ◌==◌, Bool, true, false, Option, none, some, List, [],
  ◌∷◌, ◌||◌, ◌≡◌, ◌⊎◌, inl, inr, refl, All, arith,
}
use paraspace_core.Market.Configs.{
  EthereumNetwork, arbitrum, arbitrum_goerli, arbitrum_sepolia, goerli, linea, linea_goerli,
  mainnet, moonbase, moonbeam, neon, parallel, parallel_dev, polygon, polygon_mumbai, polygon_zkevm,
  polygon_zkevm_goerli, sepolia, zksync, zksync_goerli,
}
use paraspace_core.Network.{
  Node, network_text, includes_id, includes_chain, includes_fork, hardhat_chainid, goerli_chainid,
  sepolia_chainid, mainnet_chainid, parallel_chainid, parallel_dev_chainid, moonbeam_chainid,
  moonbase_chainid, arbitrum_one_chainid, arbitrum_goerli_chainid, arbitrum_sepolia_chainid,
  polygon_chainid, polygon_zkevm_chainid, polygon_zkevm_goerli_chainid, polygon_mumbai_chainid,
  zksync_chainid, zksync_goerli_chainid, linea_goerli_chainid, linea_chainid, neon_chainid,
  is_local_testnet, is_public_testnet, is_ethereum, is_moonbeam, is_arbitrum, is_zk_sync,
  is_polygon, is_polygon_zk_evm, is_linea, is_neon, is_parallel,
}

pub data Family : Type 0 where
  on_local_testnet on_public_testnet on_moonbeam on_arbitrum on_ethereum on_polygon on_polygon_zkevm
        on_zksync on_linea on_neon on_parallel :
      Family

abbrev pub is_family : Family → Node → Bool
is_family on_local_testnet = is_local_testnet
is_family on_public_testnet = is_public_testnet
is_family on_moonbeam = is_moonbeam
is_family on_arbitrum = is_arbitrum
is_family on_ethereum = is_ethereum
is_family on_polygon = is_polygon
is_family on_polygon_zkevm = is_polygon_zk_evm
is_family on_zksync = is_zk_sync
is_family on_linea = is_linea
is_family on_neon = is_neon
is_family on_parallel = is_parallel

-- The family of a chain id and that of a name, as one search through all rows.
abbrev pub find_id : List (ℕ × Family) → ℕ → Option Family
find_id [] n = none
find_id ((k, f) ∷ rows) n = if n == k then some f else find_id rows n

abbrev pub find_text : List (EthereumNetwork × Family) → String → Option Family
find_text [] t = none
find_text ((n, f) ∷ rows) t = if str_eq t (network_text n) then some f else find_text rows t

abbrev pub family_of_id : ℕ → Option Family
family_of_id = find_id (
    (hardhat_chainid, on_local_testnet)
    ∷ (goerli_chainid, on_public_testnet)
    ∷ (sepolia_chainid, on_public_testnet)
    ∷ (arbitrum_goerli_chainid, on_public_testnet)
    ∷ (parallel_dev_chainid, on_public_testnet)
    ∷ (zksync_goerli_chainid, on_public_testnet)
    ∷ (polygon_zkevm_goerli_chainid, on_public_testnet)
    ∷ (polygon_mumbai_chainid, on_public_testnet)
    ∷ (moonbase_chainid, on_public_testnet)
    ∷ (linea_goerli_chainid, on_public_testnet)
    ∷ (moonbeam_chainid, on_moonbeam)
    ∷ (arbitrum_one_chainid, on_arbitrum)
    ∷ (mainnet_chainid, on_ethereum)
    ∷ (polygon_chainid, on_polygon)
    ∷ (polygon_zkevm_chainid, on_polygon_zkevm)
    ∷ (zksync_chainid, on_zksync)
    ∷ (linea_chainid, on_linea)
    ∷ (neon_chainid, on_neon)
    ∷ (parallel_chainid, on_parallel)
    ∷ [])

abbrev pub family_of_text : String → Option Family
family_of_text = find_text (
    (goerli, on_public_testnet)
    ∷ (sepolia, on_public_testnet)
    ∷ (arbitrum_goerli, on_public_testnet)
    ∷ (arbitrum_sepolia, on_public_testnet)
    ∷ (parallel_dev, on_public_testnet)
    ∷ (zksync_goerli, on_public_testnet)
    ∷ (polygon_zkevm_goerli, on_public_testnet)
    ∷ (polygon_mumbai, on_public_testnet)
    ∷ (moonbase, on_public_testnet)
    ∷ (linea_goerli, on_public_testnet)
    ∷ (moonbeam, on_moonbeam)
    ∷ (arbitrum, on_arbitrum)
    ∷ (mainnet, on_ethereum)
    ∷ (polygon, on_polygon)
    ∷ (polygon_zkevm, on_polygon_zkevm)
    ∷ (zksync, on_zksync)
    ∷ (linea, on_linea)
    ∷ (neon, on_neon)
    ∷ (parallel, on_parallel)
    ∷ [])

abbrev pub family_of_chain : Option ℕ → Option Family
family_of_chain none = none
family_of_chain (some n) = family_of_id n

-- Nothing is forked, or the chain is none of the networks that have a predicate.
abbrev pub IsSingle : Node → Type 0
IsSingle x = (x.fork ≡ "") ⊎ (family_of_chain x.chain_id ≡ none)

-- The chain, or else the text, decides.
abbrev IsPlaced : Family → Node → Type 0
IsPlaced f x = (family_of_chain x.chain_id ≡ some f) ⊎ (family_of_text x.fork ≡ some f)

either_true : (a b : Bool) → (a || b) ≡ true → (a ≡ true) ⊎ (b ≡ true)
either_true true b h = inl refl
either_true false b h = inr h

eq-id : (n k : ℕ) → (n == k) ≡ true → n ≡ k
eq-id n k h = ground arith

includes-id :
    (f : Family) (ks : List ℕ) (n : ℕ)
    → All (λ k. family_of_id k ≡ some f) ks
    → includes_id ks n ≡ true
    → family_of_id n ≡ some f
includes-id f [] n all h = cc
includes-id f (k ∷ ks) n (same, all) h = elim (either_true (n == k) (includes_id ks n) h) [
  | inl t ↦ rw (eq-id n k t) same
  | inr t ↦ includes-id f ks n all t
]

includes-chain :
    (f : Family) (ks : List ℕ) (c : Option ℕ)
    → All (λ k. family_of_id k ≡ some f) ks
    → includes_chain ks c ≡ true
    → family_of_chain c ≡ some f
includes-chain f ks none all h = cc
includes-chain f ks (some n) all h = includes-id f ks n all h

includes-fork :
    (f : Family) (ns : List EthereumNetwork) (t : String)
    → All (λ n. family_of_text (network_text n) ≡ some f) ns
    → includes_fork ns t ≡ true
    → family_of_text t ≡ some f
includes-fork f [] t all h = cc
includes-fork f (n ∷ ns) t (same, all) h =
    elim (either_true (str_eq t (network_text n)) (includes_fork ns t) h) [
      | inl e ↦ rw ((eq_iff t (network_text n)).0 e) same
      | inr e ↦ includes-fork f ns t all e
    ]

-- A predicate that asks for the chain or for the text.
placed :
    (f : Family) (ks : List ℕ) (ns : List EthereumNetwork) (x : Node)
    → All (λ k. family_of_id k ≡ some f) ks
    → All (λ n. family_of_text (network_text n) ≡ some f) ns
    → (includes_chain ks x.chain_id || includes_fork ns x.fork) ≡ true
    → IsPlaced f x
placed f ks ns x ids texts h =
    elim (either_true (includes_chain ks x.chain_id) (includes_fork ns x.fork) h) [
      | inl t ↦ inl (includes-chain f ks x.chain_id ids t)
      | inr t ↦ inr (includes-fork f ns x.fork texts t)
    ]

is_family-IsPlaced : (f : Family) (x : Node) → is_family f x ≡ true → IsPlaced f x
unfolding is_local_testnet is_public_testnet is_ethereum is_moonbeam is_arbitrum is_zk_sync
    is_polygon is_polygon_zk_evm is_linea is_neon is_parallel
is_family-IsPlaced on_local_testnet x h =
    inl (includes-chain on_local_testnet (hardhat_chainid ∷ []) x.chain_id (refl, tt) h)
is_family-IsPlaced on_public_testnet x h =
    placed on_public_testnet
      (goerli_chainid ∷ sepolia_chainid ∷ arbitrum_goerli_chainid ∷ arbitrum_sepolia_chainid
        ∷ parallel_dev_chainid ∷ zksync_goerli_chainid ∷ polygon_zkevm_goerli_chainid
        ∷ polygon_mumbai_chainid ∷ moonbase_chainid ∷ linea_goerli_chainid ∷ [])
      (goerli ∷ sepolia ∷ arbitrum_goerli ∷ arbitrum_sepolia ∷ parallel_dev ∷ zksync_goerli
        ∷ polygon_zkevm_goerli ∷ polygon_mumbai ∷ moonbase ∷ linea_goerli ∷ [])
      x (refl, (refl, (refl, (refl, (refl, (refl, (refl, (refl, (refl, (refl, tt))))))))))
      (refl, (refl, (refl, (refl, (refl, (refl, (refl, (refl, (refl, (refl, tt)))))))))) h
is_family-IsPlaced on_moonbeam x h =
    placed on_moonbeam (moonbeam_chainid ∷ []) (moonbeam ∷ []) x (refl, tt) (refl, tt) h
is_family-IsPlaced on_arbitrum x h =
    placed on_arbitrum (arbitrum_one_chainid ∷ []) (arbitrum ∷ []) x (refl, tt) (refl, tt) h
is_family-IsPlaced on_ethereum x h =
    placed on_ethereum (mainnet_chainid ∷ []) (mainnet ∷ []) x (refl, tt) (refl, tt) h
is_family-IsPlaced on_polygon x h =
    placed on_polygon (polygon_chainid ∷ []) (polygon ∷ []) x (refl, tt) (refl, tt) h
is_family-IsPlaced on_polygon_zkevm x h =
    placed on_polygon_zkevm (polygon_zkevm_chainid ∷ []) (polygon_zkevm ∷ []) x (refl, tt)
      (refl, tt) h
is_family-IsPlaced on_zksync x h =
    placed on_zksync (zksync_chainid ∷ []) (zksync ∷ []) x (refl, tt) (refl, tt) h
is_family-IsPlaced on_linea x h =
    placed on_linea (linea_chainid ∷ []) (linea ∷ []) x (refl, tt) (refl, tt) h
is_family-IsPlaced on_neon x h =
    placed on_neon (neon_chainid ∷ []) (neon ∷ []) x (refl, tt) (refl, tt) h
is_family-IsPlaced on_parallel x h =
    placed on_parallel (parallel_chainid ∷ []) (parallel ∷ []) x (refl, tt) (refl, tt) h

no_text : family_of_text "" ≡ none
no_text = refl

-- On a node where nothing is forked, or whose chain id belongs to no network that has a predicate, at most one
-- of the predicates for the local testnet, the public testnets and the nine mainnets holds.
pub is_family_unique :
    (f g : Family) (x : Node) → IsSingle x → is_family f x ≡ true → is_family g x ≡ true → f ≡ g
is_family_unique f g x single hf hg =
    go single (is_family-IsPlaced f x hf) (is_family-IsPlaced g x hg)
  where
    go : IsSingle x → IsPlaced f x → IsPlaced g x → f ≡ g
    go s (inl a) (inl b) = cc
    go s (inr a) (inr b) = cc
    go (inl e) (inr a) (inl b) = let n = no_text in cc
    go (inl e) (inl a) (inr b) = let n = no_text in cc
    go (inr s) (inr a) (inl b) = cc
    go (inr s) (inl a) (inr b) = cc
