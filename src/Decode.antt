-- ===== src/Decode.antt =====
-- libdvbtee/decode.cpp, decode.h and decode/table/: the tables of a transport stream as the
-- decoder keeps them. `Records` has the records and `Tables` how a table becomes one, `Service`
-- the class decode_network_service, `Network` the class decode_network, and `Stream` the class
-- decode with its readiness tests in `Ready`; `Epg` and `Dump` are the programme guide. The other
-- modules hold the proofs.
pub mod Records
pub mod Tables
pub mod Service
pub mod Network
pub mod Stream
pub mod Ready
pub mod Epg
pub mod Dump
pub mod Listing
pub mod Span
pub mod Quiet
pub mod Twice
pub mod Guide
mod Tests
mod EpgTests
