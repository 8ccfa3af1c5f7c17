-- ===== src/Osc.antt =====
-- OSC messages: include/nomos/rt/osc_encode.hpp and the receiving side, src/osc_server.cpp.
pub mod Encode
pub mod Wire
pub mod Laws
pub mod Server
pub mod Receive
pub mod Reply
mod Tests
