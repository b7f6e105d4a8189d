-- ===== src/Market/TimeLocks.antt =====
-- The time lock strategys of market-config/timeLockStrategies.ts, by the kind of asset.
mod Stables
mod Ethers
mod Protocols
mod Apes
mod Chains
mod Yuga
mod Collections
pub use Stables.*
pub use Ethers.*
pub use Protocols.*
pub use Apes.*
pub use Chains.*
pub use Yuga.*
pub use Collections.*
