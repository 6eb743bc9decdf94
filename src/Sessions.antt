-- ===== src/Sessions.antt =====
-- src/new_mud/apps/identity/services.py: login, refresh, logout and the revocation that they share.
pub mod Tables
pub mod Converge
pub mod Result
pub mod Request
pub mod Rotation
pub mod Retry
pub mod Refresh
pub mod Access
pub mod Login
pub mod Logout
pub mod Branches
pub mod OneActive
pub mod Rotated
pub mod Revocation
pub mod Entry
pub mod FirstRefresh
pub mod Ended
pub mod Resolve
pub mod Reuse
pub mod Theft
pub mod Repeat
