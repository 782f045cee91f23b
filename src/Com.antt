-- ===== src/Com.antt =====
-- The libraries for serial buses, components/COM.
pub mod Uart
pub mod Spi
pub mod Can
pub mod I2c
pub mod I2s
pub mod Memory
pub mod Closing
pub mod Frames
pub mod Rmt
pub mod Symbols
pub mod Older
pub mod Balance
pub mod Handles
