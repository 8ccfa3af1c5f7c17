-- ===== src/Modulators.antt =====
-- The modulators and the engine that runs them.
pub mod Engine
pub mod Registry
pub mod Floats
pub mod Graph
pub mod ShiftRegister
pub mod Sources
pub mod DivineCmos
pub mod Cipher
pub mod BoolsRing
pub mod Statues
pub mod CvDecoder
pub mod Segment
pub mod Slew
pub mod Genie
mod Steps
mod Tests
