-- ===== src/Lib.antt =====
-- rawr: a VoIP client. A call (Call) sends and receives audio packets, which an Opus codec encodes and
-- decodes (Codec). An audio stream (Audio) connects the call's threads to the sound devices: the device
-- callback and the call exchange samples through two ring buffers (RingBuffer), whose size is rounded up
-- to a power of two (Util). Peers are named by endpoints (Endpoint), and a STUN
-- client (Stun) asks under which endpoint the caller is seen. The signalling server (Signaller) brings
-- two peers together in a channel, where they exchange the addresses under which they can be reached;
-- its test client (TestClient) takes the part of such a peer. The socket layer (SocketSubsystem)
-- has addresses of its own, which no other part uses.
--
-- The files, and the code that each models:
--   Common/      include/rawr/Error.h, and what C gives the rest: arithmetic of a fixed width with its
--                wrap, comparisons, `memcpy` between byte lists, and the lemmas on lists and bits.
--   RingBuffer/  src/RingBuffer.c and include/rawr/RingBuffer.h, the whole interface. `RingBuffer` is
--                `rawr_RingBuffer`; `initialize`, `flush`, `get_read_available`, `get_write_available`,
--                `get_write_regions`, `get_read_regions`, `advance_write_index`, `advance_read_index`,
--                `write` and `read` are the functions of those names. `split_regions` is the part that
--                the two region functions share. Invariant says when a buffer is well formed and what
--                bytes it holds, Queue has the bounded queue that it implements. Threads has a writing and a
--                reading thread whose calls overlap, one access of what they share at a turn.
--   Util/        src/Util.c: `next_power_of2`, by the smears that Smear measures.
--   Codec/       src/Codec.c and include/rawr/Codec.h: `setup`, `cleanup`, `encode`, `decode`,
--                `frame_size` and `frame_size_code`. Resources says what is held after each.
--   Audio/       src/AudioPA.c and include/rawr/Audio.h. Device: `rawr_Audio_Setup` is `setup`,
--                `rawr_Audio_Cleanup` is `cleanup`, with the default devices and the flags. Stream:
--                `stream_setup`, `stream_read`, `stream_write`, and `callback` is
--                `rawr_AudioStream_AudioCallback`. Duplex has the two queues that a stream implements.
--                Calls: `add_device`, `start`, `stop`, and with `stream_cleanup` what a stream keeps.
--                Ps5: src/AudioPS5.c, whose audio thread `audio_turn` stands in for the callback.
--   Endpoint/    src/Endpoint.c and include/rawr/Endpoint.h: `set_sock_addr`, `set_shorts`, `set_bytes`,
--                `set_in4`, `in4`, `set_port`, `port`, `is_equal` and `hash`; Text has `string_of`,
--                which prints an endpoint. The four bytes that the
--                IPv4 address and the IPv6 flow information share are one field.
--   Call/        src/Call.c and include/rawr/Call.h. State has the call, `call_setup`, `start` and
--                `block_on_call`; Handlers has `update_media`, `on_answer`, `on_offer`, `on_connect`,
--                `on_establish` and `terminate`, which libre calls in its main loop; Steps has
--                `sip_thread`, the thread that opens everything, runs the loop and cleans up; `until_stopping`
--                is its part up to the state Stopping, from where it waits for the send thread in
--                `close_down`. Each call of libre is a `Step` that succeeds or fails, and so is that wait,
--                which ends or does not; each pointer of a call is NULL, held, or
--                let go. Stop has `stop`, the call's `rawr_Call_Stop`, after the thread
--                has ended, given whether libre still holds the SIP stack, and Early a stop while it begins, by
--                the flag of Flag. Send has the send loop `send_packets`: a `Turn` says what its calls answer.
--                Receive has `on_rtp` and `on_udp_recv`, and `wait_for_room`, the loop in which the handler
--                waits until the device has played enough. Crypto has `crypto_line`, what a call says of its key,
--                and `crypto_handler`, which reads it.
--   Stun/        src/Stun.c: `stun_setup`, `stun_cleanup`, `local_endpoint`, `binding_request` and
--                `response_handler`, which stores what the server tells in an endpoint.
--   Signaller/   src/signaller. `Server` is what PeerManager keeps, with `create_peer`, `disconnect_peer`
--                and the channels; Handlers has the handlers of main.cpp, of which `recv_handler` goes by
--                the state of the peer. Seats says when peers and channels agree, Serving that they always
--                do, and Naming and Candidates what the messages of a peer lead to.
--   TestClient/  src/signallerTestClient: `timer_handler`, `establish_client`, `recv_client` and
--                `close_client` are the handlers of a client. Meeting and Exchanging have two clients and the
--                server between them, Completing the course of one client, and Living every
--                client that comes about.
--   SocketSubsystem/  src/SocketSubsystem: `InternetAddr` is `FInternetAddr`, with its setters and getters, and
--                `create_socket` is `CreateSocket`. Reading says what is read after any calls.
--
-- How the code is read. A function that changes a structure returns the changed record. `size_t` has 64
-- bits and `unsigned` 32, and both wrap. A pointer into a buffer is an offset into a list of bytes, and
-- an access outside an array is `none` or `aborts`. A failed assertion is `aborts`. Loops are structural
-- recursion over a list or a count. The loops that wait for another thread, `block_on_call`,
-- `wait_for_samples` and `wait_for_room`, are given the number of looks that they have, and say so where
-- those are not enough; for `wait_for_room` it is proved how many are. A signed
-- multiplication that overflows is taken to wrap.
--
-- The libraries under deps are not read: what Opus, PortAudio, libre, the allocator and the byte order
-- functions of aws-c-common answer is an argument of the functions that ask. The level of a signal,
-- computed in floating point, is an argument of `callback`.
--
-- Bounds: a ring has at most 2^63 elements and fewer than 2^64 bytes, which is what indices of twice the
-- size can express. A stream's packet has at most 2^30 / 10 samples, from where the size of the ring in
-- bytes no longer fits 32 bits. The send loop makes at most 2^50 turns, which at 20 ms each are more than
-- half a million years.
--
-- Not modelled: log lines; what memory barriers do on weakly ordered processors, where the model takes each
-- access of shared memory to happen at once; the plain getters; the texts of the SIP messages in
-- src/Call.c, and a stop between the making of its SIP stack and its main loop; src/Net.c; the operations of a socket, which
-- src/SocketSubsystem declares and does not define; the programs of src/playground.
pub mod Common
pub mod RingBuffer
pub mod Util
pub mod Codec
pub mod Audio
pub mod Endpoint
pub mod Call
pub mod Stun
pub mod Signaller
pub mod TestClient
pub mod SocketSubsystem
