-- ===== src/Output.antt =====
-- libdvbtee/output.cpp: the outputs of a parser. `Stream` is `class output_stream`, one target with its ring
-- buffer and its thread, and `Targets` is `class output`, all of them.
pub mod Stream
pub mod Setup
pub mod Targets
pub mod Round
pub mod Delivers
pub mod Loses
pub mod Feeds
pub mod Drains
pub mod Full
pub mod Reclaim
pub mod Register
pub mod Kept
pub mod Again
pub mod Kill
pub mod Stopped
mod Tests
