-- ===== src/Settings.antt =====
-- src/app/settings.
pub mod Crt
pub mod Recents
pub mod Options
pub mod Map
pub mod Confirmations
pub mod RemoteHosts
pub mod VmPrefs
pub mod General
pub mod Json
pub mod Saving
pub mod File
