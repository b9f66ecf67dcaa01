-- ===== src/States.antt =====
-- crates/bcevm/src/db/states: the state that is kept between transactions and blocks.
pub mod Status
pub mod Accounts
pub mod Cache
pub mod Reverts
pub mod Bundle
pub mod Meaning
pub mod Undo
pub mod Restore
pub mod Back
pub mod RoundTrip
pub mod Transition
pub mod CacheState
pub mod Moves
pub mod Takes
pub mod Operations
pub mod Refines
pub mod BundleState
pub mod Chain
mod Examples
