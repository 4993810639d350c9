-- ===== src/Types.antt =====
-- internal/comrad/types.go: the records that the store keeps. JSON-only decorations (`Conditions`)
-- and free-form metadata maps are left out; nothing that is modelled reads them.
mod Status
mod Nodes
mod Profiles
mod Tasks
mod Accounts
mod Cache
mod Errors
pub use Status.*
pub use Nodes.*
pub use Profiles.*
pub use Tasks.*
pub use Accounts.*
pub use Cache.*
pub use Errors.*
