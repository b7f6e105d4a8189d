-- ===== src/Market/Params.antt =====
-- The parameterss of market-config/reservesConfigs.ts, by the kind of asset.
mod Stables
mod Ethers
mod Chains
mod Apes
mod Protocols
mod Yuga
mod Collections
pub use Stables.*
pub use Ethers.*
pub use Chains.*
pub use Apes.*
pub use Protocols.*
pub use Yuga.*
pub use Collections.*
