-- ===== src/Market/Rates.antt =====
-- The interest rate strategys of market-config/rateStrategies.ts, by the kind of asset.
mod Stables
mod Ethers
mod Chains
mod Apes
mod Protocols
pub use Stables.*
pub use Ethers.*
pub use Chains.*
pub use Apes.*
pub use Protocols.*
