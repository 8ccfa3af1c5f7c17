-- ===== src/Control.antt =====
-- src/rt_control_thread.cpp: the control thread.
pub mod Mts
pub mod Host
pub mod State
pub mod Osc
pub mod Notes
pub mod Midi
pub mod Repl
pub mod Modulators
pub mod Uuid
pub mod Log
pub mod Sound
pub mod Dispatch
pub mod Connection
mod Tests
