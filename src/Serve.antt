-- ===== src/Serve.antt =====
-- libdvbtee_server/serve.cpp and text.cpp, and the chunks of HTTP in libdvbtee/output.cpp: what the server answers.
-- `Pages` has the texts, `Chunks` how they are sent, `Client` what a client is told of the programme
-- guide and the channels; `Words`, `Command` and `Dispatch` are the commands of a client, `Conf` is
-- the file of the channels, and `Names` has what is printed for formats and dates.
pub mod Pages
pub mod Fits
pub mod Chunks
pub mod Answer
pub mod Client
pub mod Words
pub mod Command
pub mod Dispatch
pub mod Services
pub mod Conf
pub mod Names
mod Tests
mod ConfTests
