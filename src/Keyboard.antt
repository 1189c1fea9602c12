-- ===== src/Keyboard.antt =====
-- The keyboard driver (src/drivers/keyboard.c).
pub mod Keys
pub mod Tables
pub mod Translate
pub mod Decode
pub mod Pause
pub mod PrintScreen
pub mod Buffer
pub mod Commands
mod Tests
