-- ===== src/Ipc.antt =====
-- The framed channel: include/nomos/rt/ipc.hpp, include/nomos/rt/ipc_channel.hpp, src/ipc_channel.cpp.
pub mod Stream
pub mod Channel
pub mod Transfer
pub mod Frames
pub mod Write
pub mod RoundTrip
mod Tests
