-- ===== src/Lib.antt =====
-- Postgread stands between a PostgreSQL frontend and its backend: it decodes every message that one
-- of them sends, hands it to a callback, and passes its bytes on to the other.
--
-- The parts of the program, from the bytes up:
-- * Msg/Decode models src/msg/util/decode.rs. `BytesSource` is the slice of a body and what is left
--   of it; a decoder is a function on it, and `?` is the bind of a small monad. The children of this
--   file hold a calculus for decoders: what they read, what they accept, and both at once.
-- * Msg/Encode models src/msg/util/encode.rs, Msg/AsyncIo models src/msg/util/async_io.rs, and
--   Msg/TypeByte models src/msg/type_byte.rs.
-- * Msg/Read models src/msg/util/read.rs: the length is read, the header put into a vector, and the
--   body read behind it and decoded.
-- * Msg/Parts models src/msg/parts.rs, and Msg/Body the files of src/msg/body: a record or data type
--   for each message, with the names of the source, `<message>_msg` for its `MsgDecode`, and
--   `<message>_type_byte` for its `TYPE_BYTE`. Msg/Body/TypeBytes compares these bytes. Vectors
--   of bytes, and the texts that wrap them, are lists of numbers.
-- * Convey models src/convey.rs. Convey/State and Convey/Message hold its enumerations, Convey/Stream
--   the plain or encrypted stream of a side and `switch_to_tls`, Convey/Conveyor the structure and
--   its helpers, Convey/Dispatch the tables of states, and Convey/Go the method `go`: `negotiate`
--   is what comes before its loop, and `round` is one turn of the loop.
-- * The other files below Convey prove what is conveyed: Convey/Moves for single calls, Convey/Table
--   for the table of states, Convey/Relay for one message, Convey/Mirror for the loop. Convey/Protocol
--   states the rules of the conversation by phases, which are coarser than the states of the program,
--   Convey/Gate what they mean for the authentication and for turns, and Convey/Opening follows
--   the negotiation. Convey/Converse says what a conversation in order is, and Convey/Flow follows one
--   that has arrived. Convey/Ends is about the fuel of a run and about its turns, and Convey/Modes
--   about which of its two streams a side uses.
-- * Convey/Util models src/convey/util.rs, the copies of messages.
-- * Server models src/server.rs and `dump_msg` of src/main.rs: Server/Setup is what comes before the
--   loop, Server/Client one client from point to point, and Server/Accepting the accept loop and the
--   clients, whose turns come in any order. Server/Ids and Server/Counter are about the numbers of
--   the clients, Server/Progress about how far they get, and Server/Story about what is printed.
-- * Tls models src/tls: the traits, and the providers that the server gives to `convey`.
-- * Tests runs the program on streams in memory.
--
-- Functions on a `&mut` object return their result and the object after the call
-- (Prelude/Outcome). Numbers are natural numbers; the sum of lengths in `alloc_vec` is taken modulo
-- 2 ^ 32, as a release build has it, and the signed numbers of the protocol are read in two's
-- complement. The loops that read up to a null byte, collect items up to the end, or read the entries of an
-- error run on fuel that is one more than the bytes that are left: each round takes a byte at least.
-- The loop of `read_and_drop` has `num / batch + 1` rounds, since each takes a whole batch.
--
-- Streams are a parameter (`ByteStream`) with the documented behaviour of the crate `futures`: a read
-- of n bytes that succeeds returns the next n bytes, a write that succeeds sends them all. So is the TLS
-- handshake (`Channel`). The side that `future::select` finds ready first is an input of the loop,
-- one side for each turn; the stream of the other side is left as it is. The callback is a log of
-- its arguments.
--
-- What the server uses of sockets, files and the TLS crates is a parameter too (`Platform`), each
-- call a function to what it returns; the answers that change from call to call, a connection to the
-- target and the time, are inputs of the turn. A client that is conveying keeps the rounds of its
-- conversation so far. A turn of it adds further rounds, prints the lines of the calls of the callback
-- that these make, and the client ends with the conversation.
--
-- Not modelled: the parsing of the command line, the texts that `Debug` prints, the tests, and memory:
-- `decode_vec` reserves a vector for the announced count, and where that is huge the program may
-- abort, while here the decoder answers that the body is too short. Streams deliver their bytes in
-- Convey/Flow by the hypothesis `Delivers`, which every use names.
pub mod Prelude
pub mod Msg
pub mod Convey
pub mod Server
pub mod Tests
pub mod Tls
