-- ===== src/Hdw.antt =====
-- The libraries for the hardware, components/HDW.
pub mod Adc
pub mod Dac
pub mod Gpio
pub mod Pwm
pub mod Closing
