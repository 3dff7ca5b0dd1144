-- ===== src/AntiCache.antt =====
-- backend/anti-caching/AntiCache.hpp: the anti-caching adapter.
pub mod Lru
pub mod Chain
pub mod Ring
pub mod Tables
pub mod Adapter
pub mod Valid
pub mod Opened
pub mod Evicting
pub mod Begun
pub mod Bunch
pub mod Access
pub mod Emptied
pub mod Joining
pub mod Admitting
pub mod Fetching
pub mod Touching
pub mod Found
pub mod Rewriting
pub mod Updating
