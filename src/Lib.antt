-- ===== src/Lib.antt =====
-- Verification of holesail-cpp, a peer-to-peer tunnel: a server announces a local TCP or UDP port on a
-- distributed hash table, and a client that knows its url brings that port to its own machine.
--
-- The parts and the files that model them, each with the functions of the file that it names:
--   Keys      src/keys.cpp: z-base-32, hexadecimal and the connection url.
--   Text      the standard library's decimal numbers, as the record and the command line use them.
--   Record    src/record.cpp: the JSON text that a server publishes and a client reads.
--   TcpPipe   src/pipe.cpp: the bridge between a TCP socket and an encrypted stream. World adds the
--             callbacks that libuv and the stream still owe a pipe, and histories of events.
--   Frame     src/udp_pipe.cpp: datagrams on a byte stream, frame and FrameDecoder::push.
--   UdpPipe   src/udp_pipe.cpp: the server's bridge, a UDP socket and one stream.
--   UdpProxy  src/udp_pipe.cpp: the client's socket and a stream for each source address.
--   Server    src/server.cpp: identity, lifecycle, firewall and the published record. Conn is one
--             connection: its stream side, in Refs the references that keep it alive, and in Greeting its
--             stream side joined with its TcpPipe. Table holds all of them, as conns_ does.
--   TcpProxy  src/pipe.cpp: the listening socket of a TCP client.
--   Client    src/client.cpp: the key that is dialled, the newest record, the resolved options. Conn is one
--             connection, with Line for the callbacks that it is owed, and Table the client that holds
--             the connections, the proxies and the query.
--   Holesail  src/holesail.cpp: options, key derivation, the reported information and the lookup, which
--             join a server to the clients that have its url. Facade is the object that owns the DHT and
--             lends it to the server or client, Reaper what frees a DHT that was given up.
--   Args, Cli src/cli.cpp: parse_argv, validate, the options of a command line and the dispatch of run.
--             Endpoint is the session of run_endpoint, from ready to the exit status; Screen what is
--             printed, with Help and Lookup; Qr is render_qr; Logging joins --log to the logger.
--   Logger    src/logger.cpp: which messages are shown, their format and where they go.
--   Colors    include/holesail/colors.hpp: the SGR codes around a text.
--   Addr      src/addr.cpp: resolve_ip4, over libuv's parser and resolver.
--   Crypto    what the program uses of libsodium and hyperdht, as a record of functions and their sizes.
--   Base, Bits and Rc are shared: lists and options, unsigned words, result codes.
--
-- State is a record and an operation a function on it. What an operation gets from libuv, hyperdht or a
-- stream is an argument; what it asks of them is recorded on a trace or in a field of the state, and log
-- lines are left out. A history is a list of events, in any order that the modelled guards allow.
--
-- Bytes are numbers below 256 and texts are lists of bytes. uint32_t arithmetic in the codecs keeps its
-- wrap-around. The decoder of frames and the JSON scanners run on rounds, as many as the input has bytes
-- and one more; each round takes at least one byte. The rows of a QR code run on its size, two at a time.
--
-- Not modelled: which message each method logs; drain_and_close, which only closes handles of libuv; the
-- destructors, beyond the close or destroy that they call; alloc_cb, which hands out a buffer; the
-- encoding of a QR code and hyperdht, libuv and libsodium themselves, which are other projects.
pub mod Base
pub mod Bits
pub mod Keys
pub mod Frame
pub mod Text
pub mod Record
pub mod Logger
pub mod Addr
pub mod Rc
pub mod TcpPipe
pub mod TcpProxy
pub mod UdpPipe
pub mod UdpProxy
pub mod Colors
pub mod Crypto
pub mod Server
pub mod Client
pub mod Holesail
pub mod Args
pub mod Cli
pub mod Tests
