-- ===== src/Market/Auctions.antt =====
-- The auction strategys of market-config/auctionStrategies.ts, by the kind of asset.
mod Yuga
mod Collections
mod Protocols
pub use Yuga.*
pub use Collections.*
pub use Protocols.*
