-- ===== src/Settings/File.antt =====
-- The text of settings.json: `SaveLocked` and `Load` in src/app/settings/Settings.cpp.
pub mod Grammar
pub mod State
pub mod Parts
pub mod Write
pub mod Tree
pub mod Objects
pub mod Read
pub mod Load
