-- ===== src/Lib.antt =====
-- A model of the srtmp media server: the handshake, RTMP chunks and messages, AMF0, the command sessions,
-- FLV tags and the stores for packets, as the functions of the Go source, with what makes each part correct.
--
-- A connection (protocol/core/rtmp_conn.go) reads bytes through a ReadWriter (read_writer.go), puts
-- chunks together to messages (chunk_stream.go), handles the protocol's own messages, and hands the
-- others to its caller: commands in AMF0 (protocol/amf), and audio and video in FLV tags
-- (container/flv), whose headers fill the packets (av) that streams cache (protocol/cache) and queue.
--
-- Prelude: library names, Boolean tests, lists over the native numbers, machine words, and Result,
--   the outcome of a Go call: a value, an error, or a panic at run time.
-- Bytes: utils/reader.go and utils/writer.go, one function each (U16BE is u16_be).
-- Wire: protocol/core/read_writer.go. The state is a record of the bytes that will arrive, the bytes
--   written, and the two kept errors; every call returns its result and the next state.
-- Chunk: protocol/core/chunk_stream.go. writeHeader and writeChunk are in Chunk.Writer, readChunk is
--   in Chunk.Reader, in stages that pass the chunk stream and the connection on after errors too.
--   Header, Frames, Body, Parse and Receive say what bytes these send and make of them; Output and
--   Input say what they leave of the input.
-- Conn: protocol/core/rtmp_conn.go. State has RtmpConn and its map of chunk streams, Control the
--   protocol's own messages, Write and ack, Reader the loop of Read. Basic, Delivery, Frames and
--   RoundTrip follow a message through Read; Progress is about its end, Resizing about a change of
--   the chunk size on both sides, Agreement about the counters.
-- Amf: protocol/amf, less most of AMF3. Encode is encoder_amf0.go, Decode is decoder_amf0.go with util.go,
--   both with the batches of amf.go; Metadata is metadata.go; U29 has the 29-bit integers of AMF3
--   (encodeAmf3Uint29, decodeU29). decode_amf3 is the switch of DecodeAmf3.
-- Handshake: protocol/core/handshake.go, both sides, over the same ReadWriter.
-- Av: the packets of av/av.go. Aac: media/aac/parser.go.
-- Flv: container/flv/tag.go and demuxer.go; Flv.Config and Flv.AacConfig the sequence headers, with
--   AVCDecoderConfigurationRecord of media/h264/parser.go.
-- H264: media/h264/parser.go, from packets to Annex B, with ParseNalusN. H264.Nalus is about the units
--   that it finds, Annexb about what the parser makes of a packet's units, Packing about the way of an
--   access unit through PackVideoData (Flv.Packing) and the parser, Records about the configuration
--   record. An io.Writer is the bytes written, and a slice has no capacity behind its end.
-- Codec: media/coder_parser.go (CodecParser, whose Parse is parse_packet) and media/mp3/parser.go, with
--   SampleRate of media/aac/parser.go; Codec.Streams is about the packets of a stream in turn.
-- Cache: protocol/cache/cache.go and gop.go. Queue: utils/queue.go. Pool: utils/pool.go.
-- Session: the commands before media flow. Session.Server is protocol/core/forward_conn.go, with
--   Server.Replies for its answers and Server.Loop for SetUpPlayOrPublish, ReadMsg and Write; the
--   handlers pass the ForwardConnect on, after errors too. Session.Client is conn_client.go, with
--   Client.Checks and Client.Start for waitForResponse and Start, and Client.Older for what Start does
--   not call. Number has Go's conversions between int and float64, Names the texts, Action the
--   sequencing. Agreement follows the commands between the sides; Inputs, Progress and Twin are about
--   the loops, Server.Switches about their two switches over the commands.
-- Stream: protocol/stream.go, stream_rw.go and stream_handler.go. Writer and Reader are the ends of a
--   stream, over Av.Base (av/rwbase.go) and Statics; Loop has RtmpStream and a function for each case
--   of streamLoop, Loop.Steps the relation in which its goroutines and peers take turns, Handler the
--   table of streams. Sound, Loop.Cases and Loop.Invariant are about what every step keeps, Playback
--   about what a player gets, Joining about one that leaves early.
-- Tests: runs on concrete inputs.
--
-- A Go channel is a list with a bound; a stream's goroutines and its loop are steps of one relation,
-- one at a time, and the clock is an argument. Close of a StreamWriter is three steps where the player's
-- own goroutine calls it, so that the loop's Close may come between them, and a reader's goroutine is
-- started in one step and counted in another. Left out are interleavings inside one case of the loop,
-- those of SendPacket's reads of its flag and timestamps, and those of the cache, which startRead writes
-- while the loop sends it.
--
-- Integers are natural numbers below the power of two of their width, with the wrap-around written
-- out; a signed integer and a float64 are the patterns of their bits. A Go map is an association
-- list. Loops over a counter are recursion on the rounds that are left. Read, DecodeAmf0,
-- DecodeBatch and getAnnexbH264 take fuel: each round, value and unit takes at least a byte, so that
-- more fuel than bytes is enough; getAnnexbH264 starts with as much as there are bytes, which is
-- enough as well.
--
-- What is assumed of Go's library: bufio hands over bytes in order, and its writer keeps its first
-- error; the size of its buffers is not modelled. A bytes.Reader reports the end of the input even to
-- a read of no byte. A bytes.Buffer takes every byte. HMAC and the random bytes are parameters of the
-- handshake; one result takes from them that a digest of SHA-256 has 32 bytes.
--
-- Not modelled: the reading of AMF3's integers, strings, dates, arrays, objects and byte arrays behind
-- the marker of AMF3 in a value of AMF0. It is a parameter, a function of the marker and the bytes left
-- that tells how many bytes are taken and whether the call returns, fails or panics; the results hold for
-- every such function. Its references are covered within one batch, where no two calls see the same
-- bytes left; bodies of two messages that are the same bytes are taken to give the same values. It is
-- taken to come back from every call. Nor are parseURL and connectServer of conn_client.go; the
-- relays; the TS muxer; sockets, HTTP handlers, configuration and
-- logs. hls, httpflv, container/flv/muxer.go and
-- protocol/cache/special.go are commented out in the source. readChunk1 is called by nothing. In Go
-- the body of a message that Read returns shares its buffer with the chunk stream until the next
-- message there; the model's lists are copies.
pub mod Prelude
pub mod Bytes
pub mod Wire
pub mod Chunk
pub mod Conn
pub mod Amf
pub mod Handshake
pub mod Av
pub mod Aac
pub mod Flv
pub mod Cache
pub mod Queue
pub mod Pool
pub mod Session
pub mod Stream
pub mod H264
pub mod Codec
pub mod Tests
