-- ===== src/Lib.antt =====
-- go-xpra: the wire protocol of an xpra client, its session, and what its desktop backends share.
--
-- Packets are lists of dynamic values. `Encode` of rencodeplus/ writes one as bytes; `Send` of
-- protocol/ puts a header of 8 bytes before them and queues the frame for the write loop. The read
-- loop takes frames off the stream, inflates compressed payloads, collects the raw chunks that
-- arrive ahead of their packet, decodes the main packet, puts the chunks into it, and delivers it.
-- The client reads its elements through the accessors of protocol/packet.go, keeps the session's
-- windows, focus, clipboard and shared memory, and calls the desktop backend. In the other
-- direction the events of the backend reach the client through the queue of ui/, and become
-- packets.
--
-- Prelude: lists measured by native numbers, Boolean tests, signed integers and machine words,
-- bytes, and results. A Go string or slice of bytes is a list of numbers below 256.
--
-- Rencode: rencodeplus/. `Rencode/Value` has a constructor for each form of Go value that `encode`
-- distinguishes; the integer types whose conversion to int64 keeps the value share one, and floats
-- are their bit patterns. `Rencode/Tag` has the type tags, `Rencode/Encode` follows
-- rencodeplus/encode.go, `Rencode/Decode` rencodeplus/decode.go, with the input position as the
-- input that is left. `Rencode/Decimal` has the decimal conversions of the standard library that
-- both use. A decoded map is a list of entries. `Rencode/Received` says which values can be
-- encoded and what the other side receives for them, `Rencode/Decoded` what a decoded value looks
-- like.
--
-- Protocol: protocol/. `Protocol/Header` follows header.go, `Protocol/Packet` packet.go;
-- `Protocol/Chunks`, `Protocol/Compression` and `Protocol/Conn` follow conn.go: `rawChunkState`,
-- `decompress`, and in `Protocol/Conn/Writer` and `Protocol/Conn/Reader` the two sides of the
-- connection. The state of the writer is the queue, what reached the socket, the flush markers
-- that were answered, and the flags of `Conn`; each call under its mutex is one step. The read
-- loop is a function of the whole stream and of how it ends. Errors are values without the numbers
-- of their messages. The LZ4 block decoder is a parameter, about which nothing is assumed.
--
-- Ui: ui/. `Ui/Event` and `Ui/Queue` follow event.go and event_queue.go, `Ui/Geometry` the sizes
-- and damage rectangles of pixels.go, `Ui/Pixels` its conversion of pixels, `Ui/Image` the checks
-- of ui.go on icons and cursors, `Ui/Keys` the names of keys and modifiers in keys.go. Go's int is
-- ℤ there, without its bounds: sizes and coordinates are far inside int64.
--
-- Client: client/. `Client/State` has the state of the session, the log of the calls that leave
-- it, and as a parameter the platform that answers them: its answers are functions of the log, so
-- that nothing is assumed of them. A window is its identifier. `Client/Windows` follows the
-- packets on windows of client.go, `Client/Draw` handleDraw, `Client/Local` and `Client/Focus` the
-- events of the desktop in client.go and input.go, `Client/Control` hellos, challenges, pings and
-- the cursor, `Client/Hello` hello.go and sendHello, `Client/Clipboard` clipboard.go,
-- `Client/Image` image.go, `Client/Monitor` monitor.go on the monitors of `Ui/Monitor` (ui/ui.go).
-- `Client/Dispatch` is handlePacket and handleUIEvent, `Client/Run` the run loop as a relation
-- between sessions: a step is a packet, an event, a timer's report, a tick, a request to
-- disconnect, or a write of the server to the shared memory. `Client/Mmap` follows mmap.go:
-- `Client/Mmap/Chunks` the descriptors of a screen update, `Client/Mmap/Token` the token in the
-- shared area, `Client/Mmap/Area` the negotiation, the reading of updates, and the release of what
-- was read, `Client/Mmap/Session` the hello and what the client keeps. Random numbers, hashes, the
-- decoders of image formats, the environment, and the byte order of the machine, are arguments.
-- Maps are tables in the order of insertion; int64 and the counters are unbounded.
--
-- Command: cmd/go-xpra. `Command/Url` follows parseConnectionURL of main.go, `Command/Tls`
-- makeTLSConfig, `Command/Dialog` the fields and the target of connect_dialog.go, and
-- `Command/Ssh` the command line of ssh.go; `Command/Shell` says how a POSIX shell reads a
-- command, as the reference for its quoting. What net/url and net compute, the programs in PATH,
-- the environment, files and certificates are arguments.
--
-- Keysym: keysym/keysym.go, with xgbutil's table as an argument. Wayland: wayland/.
-- `Wayland/Keymap` follows keymap.go, and `Wayland/Wire` has the bytes of the requests of wire.go,
-- with the word and the padding of the bindings as arguments. `Prelude/Text` has Go's string
-- functions.
--
-- Fuel: the decoder takes two units of fuel for each byte of its input and two more, and the read
-- loop one for each byte of the stream and one more. Each value of the decoder takes a byte, each
-- round of the read loop a header; the results below include that the fuel is always enough.
--
-- Not modelled: opening sockets and the WebSocket adapter, the timers of `Flush`, messages in the
-- log of the process, files and mappings, the rest of wayland/ and the backends x11/, win32/ and
-- darwin/, which mostly call their windowing system, and the flags, dialogs and processes of
-- cmd/go-xpra.
pub mod Prelude
pub mod Rencode
pub mod Protocol
pub mod Ui
pub mod Client
pub mod Command
pub mod Keysym
pub mod Wayland
