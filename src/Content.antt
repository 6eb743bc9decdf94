-- ===== src/Content.antt =====
-- src/new_mud/apps/content: the registry of definitions that the game's content refers to.
pub mod Values
pub mod Registry
pub mod Fits
pub mod Shape
pub mod Resolve
pub mod Catalog
