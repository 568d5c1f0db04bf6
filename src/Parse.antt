-- ===== src/Parse.antt =====
-- libdvbtee/parse.cpp: `class parse`, which takes a transport stream apart. `State` has its fields and
-- its decoders, `Psi` what it does with a table, `Handlers` the calls of libdvbpsi, `Ready` the tests
-- on what has come in, `Services` the choice of services, `Feed` the loop over the packets,
-- `Guide` what it tells of its channels, and `Outputs` how it adds outputs.
pub mod State
pub mod Psi
pub mod Ready
pub mod Handlers
pub mod Services
pub mod Feed
pub mod Sync
pub mod Loop
pub mod Expect
pub mod Progress
pub mod Afresh
pub mod Choose
pub mod Guide
pub mod Told
pub mod Outputs
pub mod Reach
pub mod Sends
mod Tests
mod GuideTests
mod OutputTests
