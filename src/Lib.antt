-- ===== src/Lib.antt =====
-- libdvbtee takes a broadcast transport stream apart: packets of 188 bytes are kept in a ring buffer,
-- counted, and fed to the parser, which hands the packets of the table pids to libdvbpsi. libdvbpsi
-- calls the parser back with each table, and the parser has a decoder for each transport stream take
-- it; the packets of the chosen services go on to the outputs. This library models that path.
--
-- The files, and the code each is about:
--   Rbuf      libdvbtee/rbuf.cpp, rbuf.h: `class rbuf`, the ring buffer between threads. The buffer is a
--             list of bytes with the two indices of the code; a call under the mutex is one step.
--   Stats     libdvbtee/stats.cpp, stats.h: `class stats`, the packet header and the counters by pid.
--   Decode    libdvbtee/decode.cpp, decode.h and decode/table/: the tables. `Records` has the structures,
--             `Tables` the `store` and `ingest` methods of decode/table/, `Service` and `Network` the classes
--             `decode_network_service` and `decode_network`, `Stream` the `take_*` methods of `class decode`,
--             and `Ready` its tests of completeness (`complete_pmt`, `eit_x_complete`, `got_all_ett`, ...).
--             `Epg` is the search for the event that is on (`get_epg_event`), and `Dump` the listing of the
--             programme guide (`dump_epg`).
--   WritePsi  `writePSI` of libdvbtee/functions.cpp: sections into one packet.
--   Parse     libdvbtee/parse.cpp, parse.h: `class parse`. `State` has its fields and its access to the
--             decoders, `Psi` what it does with a table (`process_pat`, `process_pmt`, `process_mgt`,
--             `attach_table`, and the macro `define_table_wrapper` as `wrap`), `Handlers` the `take_*`
--             methods, `Ready` the tests `is_*_ready`, `Services` the choice of services and `reset`, and
--             `Feed` the loop of `feed` over the packets. `Guide` is what the parser tells of its channels
--             (`xine_dump`, `epg_dump`, `get_stream_info`), and `Outputs` are its methods `add_output`.
--   Channels  libdvbtee/channels.cpp: the frequencies of the channels.
--   Output    libdvbtee/output.cpp, output.h: where the packets go. `Stream` is `class output_stream`, one
--             target with its ring and its thread; `Setup` has its `add` methods; `Targets` is `class
--             output`, the streams by their id.
--   Tune      libdvbtee/tune.cpp, tune.h: the scan of `class tune` over a list of channels.
--   Value     libdvbtee/value/array.cpp, array.h, value.h: `class Array` and the counts of the references
--             to its values, which the heap keeps by address, with the values that stand in each. A copy
--             counts them (`Array::Array(const Array&)`), and deleting a value releases them (`~Array`).
--   Serve     libdvbtee_server/: what the server answers. `Pages` has the texts of text.cpp; of serve.cpp
--             `Client` has what a client is sent, and `Words`, `Command` and `Dispatch` its commands as the
--             calls that they make, and `Conf` how a line of the file of the channels is read;
--             `Chunks` is `stream_http_chunk` of libdvbtee/output.cpp.
--   Text      libdvbtee/functions.cpp: `url_encode`, `url_decode`, `escape_quotes`, `detect_encoding`.
--   Time      libdvbtee/functions.cpp: `datetime_utc` and `atsc_datetime_utc`, the times of events.
--   Base      the shared names: the natural numbers with `omega`, Boolean tests, lists, and `Dict`, an
--             association list in the order of its keys for `std::map`.
-- `Decode` stands on `Base` and `Time`; `Parse` uses `Decode`, `Stats`, `WritePsi` and `Output`; a
-- stream of `Output` has a ring of `Rbuf`, and its thread is a sequence of rounds. An operation takes the arguments of the
-- method and the state, and gives the state after it, with the result of the method where it has one.
-- Beside the definitions each part has modules of what they do, and `Tests`.
--
-- Numbers are natural numbers; where the code's integers wrap, `% 2 ^ w` says so. The loops over
-- lists and maps are structural. Some loops run on fuel. The search for a sync byte in `feed` takes
-- 188 times the packet count, since every 188 of its rounds lower that count. The loop over the
-- packets takes the first packet count, which each of its rounds lowers. The inner loop of
-- `writePSI` takes the length of the section, of which each round copies at least a byte. The loop
-- of `output_stream::push` has a round for each whole packet; `reclaim_resources` is called again
-- for each stream that it erases, so the number of the streams is enough. A number is printed with
-- 20 digits at most, or 8 hexadecimal ones, which is enough for 64 and for 32 bits. The loop over
-- `dumped_eit` takes 128 rounds, the number of the arrays that it may read. `Array::clear` and the
-- deletions it leads to take one for each reference from a value or from the array, and one more.
--
-- What is a parameter: libdvbpsi (in `feed` a state and the function that a packet is pushed with;
-- in `rewrite_pat` the function that generates sections) and the clock; in `Time`, `gmtime` and
-- `timegm` of the C library; in `Decode/Epg`, the texts that descriptors give and those of
-- atsctext.cpp; in `Output`, what the calls of the system return (`System`, and `sends` for the
-- calls that write: what a call returns and how many bytes it takes); in `Tune`, what the device does at each channel (`Readings`); in `Serve`, what
-- the calls of a command return (`World`), `localtime` and `strtoul`. A table comes in the form in
-- which libdvbpsi hands it over (`PsiPat` and its kin). The build without `USING_DVBPSI_VERSION_0`
-- and `OLD_DECODER` is the one modelled, with `DOUBLE_BUFFER` and `TUNER_RESOURCE_SHARING` at 0.
--
-- Not modelled: descriptors (decode/descriptor), objects and the JSON form of tables (value),
-- printing and logs, the devices of the tuners and the feeds from files, sockets and HTTP, the
-- threads and the sockets of the server, and the command line. They are I/O, or stand beside the
-- path above. `atsctext.cpp` is a copy of another project's code.
pub mod Base
pub mod Rbuf
pub mod Stats
pub mod Decode
pub mod WritePsi
pub mod Parse
pub mod Channels
pub mod Output
pub mod Text
pub mod Tune
pub mod Value
pub mod Time
pub mod Serve
