-- ===== src/Lib.antt =====
-- The protocol core of kmsrdp, a Remote Desktop Protocol server.
--
-- A client connects over TCP. Every message stands in a TPKT header (crates/rdpcore-pdu/src/tpkt.rs)
-- with an X.224 header behind it (tpdu.rs, x224.rs), and, once the X.224 connection stands, in an
-- MCS PDU (mcs.rs), whose fields are BER or PER (ber.rs, per.rs);
-- the connect PDUs carry the GCC conference and its blocks (gcc.rs). An acceptor
-- (crates/rdpcore-connector/src/lib.rs) takes the client from its Connection Request over the MCS
-- connect and channel joins, the client info and the approval of its credentials, and the capability
-- sets (capability_sets.rs) to the end of the finalization (finalization.rs), and again through the
-- last two when the desktop is resized. Tiles of the screen are sent as planes (rdp6.rs). Static channels carry messages of
-- any size in chunks (svc.rs), and one of them carries the dynamic channels
-- (crates/rdpcore-dvc/src), which split their own payloads again. What the server sends is queued by
-- channel and priority (crates/rdpcore-transport/src/scheduler.rs). Before a login is tried, the
-- address is looked up in the limiter of failures (crates/rdpcore-server/src/auth_limit.rs).
--
-- Which file models what:
--   Prelude        the names that all files share, and lemmas on lists, tests, bytes and bit masks
--   Pdu.Result     DecodeError and the result of a decoder
--   Pdu.Cursor     cursor.rs: ReadCursor as its buffer and position, WriteBuf as the bytes written
--   Pdu.Tpkt, Pdu.Tpdu, Pdu.X224   tpkt.rs, tpdu.rs, x224.rs; Pdu.X224.Request its Connection Request
--   Pdu.Per, Pdu.Ber               per.rs, ber.rs
--   Pdu.Mcs.Connect, Pdu.Mcs.Domain   mcs.rs: the connect PDUs, and the domain PDUs
--   Pdu.Svc        svc.rs: chunkify, dechunkify, reassemble, wrap_indication
--   Pdu.Gcc        gcc.rs: the blocks of user data; Pdu.Gcc.Client and Pdu.Gcc.Server the client's and
--                  the server's, Pdu.Gcc.Conference the conference PDUs around them
--   Pdu.ShareControl, Pdu.Capabilities   capability_sets.rs: the header, what a client sends of the
--                  sets, and, in Pdu.Capabilities.Server, what the server sends
--   Pdu.Finalization, Pdu.Licensing      finalization.rs without the slow-path input; licensing.rs, headers.rs
--   Pdu.Rdp6.Rle, Pdu.Rdp6.Plane, Pdu.Rdp6.Tile   rdp6.rs: the run-length code of a scanline, the filter
--                  of a plane, a tile
--   Connector      crates/rdpcore-connector/src/lib.rs: Acceptor; Connector.Handlers its `on_` and `handle_`
--                  methods, Connector.Steps `step` with its loops and the other calls, Connector.Replies
--                  the messages it sends, Connector.Codecs the interface of gcc.rs and client_info.rs, and
--                  Connector.Codecs.Blocks how gcc.rs fills it
--   Connector.Phases   the connection sequence as a step relation, in Connector.Phases.Pdus with the
--                  PDUs of the input
--   Dvc.Pdu        crates/rdpcore-dvc/src/pdu.rs
--   Dvc.Slot       crates/rdpcore-dvc/src/lib.rs: the reassembly in handle_incoming_data
--   Dvc.Mux        the rest of that file: DvcMux, with the state of its handlers and their callbacks as
--                  parameters
--   Transport.Scheduler   scheduler.rs
--   Server.AuthLimit      auth_limit.rs
--   Tests          runs on concrete inputs
-- Modules named Laws, Bounds, RoundTrip, Agreement, Order and the like hold the proofs about their parent.
--
-- A byte is a number, and a write returns the bytes that the code appends; a cast to a narrower
-- integer is a remainder. A decoder takes a cursor and returns a value with the cursor behind it, or
-- the code's error. A method that changes its object takes and returns the state. The hash map of
-- the limiter is an association list, whose order is that of the iteration; the time is an argument.
--
-- Loops are recursions on the list or on the rounds that are left. `slice::chunks` runs on fuel, the
-- length of the slice, which is enough since each round takes a byte at least; the round trips of
-- split messages rest on this. The scanline decoder has as much fuel as places to fill, the loop
-- over blocks as many as there are bytes, and the loops of the acceptor one more: every round fills a
-- place or takes a byte. An acceptor's loop whose fuel is used up gives `none`.
--
-- The acceptor takes the GCC blocks, the client info and the test for UTF-8 as a record of functions,
-- of which Pdu.Gcc gives the first.
-- A call returns its result with the acceptor it leaves, also where it fails. A plane that does not
-- fit the array on the stack gives `none` for the panic. Of the debug assertions, that of a PER
-- integer is a hypothesis; the bytes are those of a release build.
--
-- Not modelled: sockets and tasks, the mutex of the limiter, text and its encodings, the client info, the
-- writer of the client's GCC blocks, which only tests call, the panics of
-- arithmetic overflow on instants, and the parts of the program that the files above do not name.
pub mod Connector
pub mod Dvc
pub mod Pdu
pub mod Prelude
pub mod Server
pub mod Tests
pub mod Transport
