-- ===== src/SystemSettings.antt =====
-- The settings that the owner edits: app/services/system_settings.py, with what reads them.
pub mod Known
pub mod Commerce
pub mod Service
pub mod View
pub mod Maintenance
pub mod Calls
pub mod Coherent
pub mod Upserts
pub mod Current
pub mod Mode
pub mod Gated
