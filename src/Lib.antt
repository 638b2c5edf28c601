-- ===== src/Lib.antt =====
-- rperf3-rs, a network throughput measurement tool: a client and a server exchange TCP or UDP
-- traffic and report what went through.
--
-- The parts and how they interact. The command line (src/bin/main.rs) makes a Config
-- (src/config.rs) and runs a client or a server. These talk over a control connection in framed
-- JSON messages (src/protocol.rs), and send test traffic: UDP packets carry a header
-- (src/udp_packet.rs), leave and arrive in batches (src/batch_socket.rs), use pooled buffers
-- (src/buffer_pool.rs) and are paced by a token bucket (src/token_bucket.rs). Both ends record
-- into a shared collector (src/measurements.rs), from which the results are built, and a task
-- prints the interval reports (src/interval_reporter.rs). What moves the traffic are the loops of
-- src/client.rs and src/server.rs, one for each protocol, end and direction: they read or write,
-- record, pace, and send a report to the printing task in each interval. The client sends a Setup
-- message, reads the replies, runs such a loop and tells its callback how the test goes. A session
-- of the server answers the Setup message, runs such a loop and writes the result back. One-way
-- tests have senders and receivers of their own.
--
-- The files. UdpPacket: UdpPacketHeader, create_packet, create_packet_fast, parse_packet and
-- TimestampCache; UdpPacket/Roundtrip and UdpPacket/Timestamp have their theorems. TokenBucket:
-- every method of TokenBucket; Refill, Debt, Rate, Unlimited and Bandwidth below it are about its
-- arithmetic, its bound on the traffic and its rates. BufferPool: every method; BufferPool/Clean
-- has the invariant. Measurements: Data has the records and Measurements' methods, Intervals
-- CircularIntervalBuffer, TcpStats the TCP statistics and their wire form, Collector
-- MeasurementsCollector (Collector/Atomic the interleavings of concurrent calls, Collector/Loss
-- what is lost and late), Report get_detailed_results and what it builds (Report/Types its
-- records, Report/Totals its byte counts, Report/Intervals its intervals). Config: Config and its
-- builder. Cli: Suffix has parse_bandwidth and parse_byte_size, Value their meaning, Commands the
-- settings that main makes of a command. Protocol: Message, serialize_message and
-- deserialize_message; Protocol/Framing the byte stream. Batch: Send has UdpSendBatch (Send/Order
-- what leaves, and for whom), Recv UdpRecvBatch and the conversion of addresses, Recv/Buffers what
-- is handed out on Linux and Recv/Portable what becomes of the buffers elsewhere. Reporter:
-- run_reporter_task and format_interval_output; Reporter/Effects what it does with a test's
-- reports. Handshake: the Setup message of src/client.rs, what src/server.rs makes of it, the
-- replies and the roles; Handshake/Agreement that both ends run the same test. Sender: the batches
-- of run_udp_send_batched of src/client.rs; Sender/Sequence its sequence numbers. Traffic: what
-- the loops share, the interval report among it; Traffic/Tcp has the four TCP loops (Tcp/Rounds,
-- Tcp/Counts and Tcp/Reports are about their rounds, their byte counts and their reports),
-- Traffic/UdpReceive the four receiving UDP loops (UdpReceive/Delivery and UdpReceive/Loops what
-- they record), Traffic/UdpSend and Traffic/UdpBatched the three sending ones (a Numbers below
-- each has what they send), Traffic/Pacing the bandwidth limit of the server, Traffic/Books the
-- accounts of the reports, Traffic/Lossless the way from a sender to a receiver. Session:
-- handle_tcp_client and handle_udp_test of src/server.rs; Session/Streams and Session/Result are
-- about the result that they write. OneWay: recv_one_way_server_with_socket and
-- recv_one_way_receiver of src/server.rs; OneWay/Count their counters, OneWay/Loop the end of the
-- loop. Client: Client, the progress events and the end of a test; Client/Sessions has run,
-- run_tcp and run_udp, Client/Events and Client/Completion are about the events and the end of a
-- session. Error: src/error.rs. OneWayClient: send_one_way, send_one_way_with_offset and
-- recv_one_way of src/client.rs; OneWayClient/Delivery is about what the server receives from the
-- first, OneWayClient/Magic about the last. Base has the shared names: Lists, Word (machine words
-- and bytes), Int (i64), Float, Text, Try and Tests (Boolean tests). Files named Tests have runs
-- of the code and uses of the theorems at concrete inputs.
--
-- Conventions. Numbers are natural numbers; a machine word keeps its wrap-around as a remainder,
-- as in a release build, and a Duration or an Instant is a number of nanoseconds. A usize has 64
-- bits. f64 is the interface Float: no law of floating point is assumed. A method that changes its
-- object returns the new object. A clock reading, a random value, the platform's answer and the
-- result of a socket call are arguments, so every theorem holds for all of them. A method that
-- holds a mutex throughout is one step; where atomics are used instead, Collector/Atomic has the
-- steps between. An error, or a panic where one can occur, is the absence of a result.
--
-- Bounds and fuel. Loops are recursions over the packets, messages, rounds or results that they
-- process; a round of a traffic loop holds the clocks, the socket result and the cancellation that
-- it meets, so a list of rounds is a run of the loop, which has ended if one of them ends it and
-- else is still running. The only bounds that are chosen are the passes that the clock allows the
-- sender's inner loop, an argument, and that of read_all in Protocol/Framing, the number of
-- messages to read; the number of frames is enough. What a theorem needs of the size of a number
-- stands in its statement.
--
-- Not modelled. Of src/client.rs the tasks of the parallel one-way senders, of which only the end
-- is represented, and print_results; of src/server.rs the loops that accept connections, the
-- parallel one-way receivers, and failures to write to the control connection, which end a
-- session; the one-way loops for macOS and Windows; src/windows_socket_dup.rs, calls of the
-- Windows interface. Third-party code is a parameter: serde_json as the record Json, and clap,
-- which parses the options. The text of printed lines and the layout of JSON are left out.
pub mod Base
pub mod Batch
pub mod BufferPool
pub mod Cli
pub mod Client
pub mod Config
pub mod Error
pub mod Handshake
pub mod Measurements
pub mod OneWay
pub mod OneWayClient
pub mod Protocol
pub mod Reporter
pub mod Sender
pub mod Session
pub mod TokenBucket
pub mod Traffic
pub mod UdpPacket
