-- ===== src/Lib.antt =====
-- mini-proxad: a proxy that stands between the clients and the server of a service, records what
-- each side sends, lets a Python script look at it, change it or kill it, and writes the flows to
-- pcap files. The development models the raw (TCP) path, the HTTP path, the hooks of the script,
-- the dumper, and what stands around them: the configuration, the start, the loop over connections
-- and the watcher of the script.
--
-- How the parts interact. main (src/main.rs) reads the configuration (src/config.rs), makes a
-- service of it (src/service.rs, with src/tls.rs), loads the script and starts its watcher, and
-- starts the proxy, which binds the socket, starts the dumper and accepts connections. A connection
-- becomes a flow (src/flow/mod.rs) with a history for each side (src/flow/history.rs). On the raw
-- path `handle_flow` (src/proxy/mod.rs) reads a chunk from the side that is ready (src/stream.rs),
-- records it, gives it to the script (src/filter/mod.rs with the objects of src/filter/api.rs) and
-- forwards what the script has left. On the HTTP path hyper calls the service of src/proxy/hyper.rs
-- for each request. A finished flow goes to the dumper (src/proxy/dumper.rs), which iterates over
-- it (src/flow/iter.rs) and writes a TCP conversation.
--
--   Prelude         names of the libraries; lists and what is left of them
--                   (Sublists), Boolean tests, results with errors and panics, texts
--   Net             `SocketAddr` and `IpAddr` of the standard library
--   Config          src/config.rs: the record and its defaults
--   Tls             src/tls.rs: `TlsConfig::new`, the verifier
--   Stream          src/stream.rs: `read_chunk`, `write_chunk`
--   History.Raw     src/flow/history.rs, `RawHistory`; Tiles and Tiling: the ranges of the
--                   chunks
--   History.Http    src/flow/history.rs, `HttpHistory`; Bounds: its limits
--   Flow            src/flow/mod.rs; Flow.Iter: src/flow/iter.rs, with Merge (the specification),
--                   Sides, Contents, Order and Clock for raw flows, Dialogue, Texts and Versions
--                   for HTTP flows
--   Http            src/http.rs: messages and their text; Http.Extract: `extract_bound`, with the
--                   objects `HttpReq` and `HttpResp` of src/filter/api.rs; Http.Settings: `HttpConfig`
--   Filter          src/filter/mod.rs and src/filter/api.rs: the script; Filter.Raw and Filter.Http:
--                   the hooks, each with Verdicts (the table of what a script may return); Filter.Objects: the getters of the script's objects, with Params (the
--                   query parameters), Reading (messages that a script only looks at), Changes (the
--                   setters) and Display (the texts); Filter.Loading: `load_module`; Filter.Watcher:
--                   `spawn_watcher`, with Bursts
--   Service         src/service.rs: `from_config`
--   Proxy.Link      src/proxy/acceptor.rs and src/proxy/connector.rs
--   Proxy.Raw       src/proxy/mod.rs: `read_chunk`, `write_last_chunk`, `handle_flow`; Reads (what a
--                   read does), Sync (recorded against forwarded), ClientSide and ServerSide (one
--                   round), Forwarding (whole flows), Identity (what stays), Growth and
--                   Ending (the loop ends)
--   Proxy.Hyper     src/proxy/hyper.rs: `push_request`, `push_response`, `call`; Pushes, Laws, Errors,
--                   Answers, Logs, Sequence
--   Proxy.Dumper    src/proxy/dumper.rs: Start (`start`), Packet (`write_tcp_packet`,
--                   `write_tcp_handshake`), Conversation (`write_tcp_flow`), Transcript and Course (the
--                   specification), Slices, Segments, Pieces, Files, Payloads and Messages (the
--                   refinement), Rotation (`dumper`: one file after another) with Count,
--                   Captures, Listing and Contents
--   Proxy.Recorded  a raw flow from the connection to the file
--   Proxy.Documents what the file says of a flow
--   Proxy.Archive   from the loop over connections to the files of the dumper
--   Proxy.Start     src/proxy/mod.rs: `start`
--   Proxy.Accept    src/proxy/mod.rs: `handle_accept`, its tasks and the channel to the dumper;
--                   Handover, Tasks and Delivery (whence the flows come); Outcomes (each connection
--                   alone), Numbers, Offers, Moves, Steps and Isolation
--   Startup         src/main.rs: `main`
--   Examples        a concrete clock, crate, script, writer, host and TLS library, and runs of the
--                   theorems
--
-- State and operations. Structs are records with the fields of the source. Code that changes a
-- struct takes it and returns it. `Result` has a third outcome for a panic beside `anyhow::Result`;
-- code under a lock or over an open file returns its state also where it fails. Times and ids are
-- type parameters, and each reading of the clock is an argument. Lengths and offsets of byte
-- vectors are natural numbers, since a `Vec` holds less than 2^63 bytes; sums of `usize` counters
-- and the `u32` sequence numbers wrap as in a release build.
--
-- The environment. A stream is the list of its wake-ups, each with the answers of `poll_read`; how
-- a write ends is a value. The rounds of the `select!` loop are a list, in any order of the two
-- sides, and each round has its own script, as the script may be reloaded at any time. A Python
-- function is an arbitrary function. The crates `http`, `hyper` and `http-body-util` (with its
-- `Limited`) are the record `HttpCrate`, chrono is `Chrono`, `etherparse` and `pcap-file` are
-- `Wire`; what is relied on of them is `IsHeaderMap`, `IsTimely` and `IsReliable`, and Examples has
-- an instance of each. `call` of Proxy.Hyper gets the messages that `Limited` has let through, and
-- `call_service`, which the tasks of Proxy.Accept run, puts the limit of the service before it.
--
-- Files, sockets, the interpreter, inotify and rustls are records of functions or outcomes (`Disk`,
-- `WatchSystem`, `DumpSystem`, `Rustls`, `Host`). The tasks that `handle_accept` spawns are in a
-- list, and a schedule of events says which of them has an event next and when the dumper takes a
-- flow. The items of the inotify stream come with the milliseconds since the round of `select!`
-- before, and a silence follows the last one.
--
-- Fuel. The loop over a flow has one call of `next` more than there are chunks or messages, and the
-- loop over the segments of a chunk as many rounds as bytes, each round taking at least one; that
-- this is enough is part of the theorems.
--
-- Not modelled: the reading of the YAML file, which is serde's; logging, the limit of open files
-- and the wait for ctrl-c in main; the making of the names of the pcap files, which is strfmt's
-- (a name is an outcome, and a file of the same name is replaced); the registration of the Python classes and their `__traverse__`; and the getters of `Uri` that hand
-- out what the crate `http` gives.
pub mod Prelude
pub mod Net
pub mod Config
pub mod Tls
pub mod Stream
pub mod Http
pub mod History
pub mod Flow
pub mod Filter
pub mod Service
pub mod Proxy
pub mod Startup
pub mod Examples
