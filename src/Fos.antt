-- ===== src/Fos.antt =====
-- The libraries for FreeRTOS, components/FOS.
pub mod Task
pub mod Sync
pub mod Lock
