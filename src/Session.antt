-- ===== src/Session.antt =====
-- A server's session with a client: `handle_tcp_client`, `handle_udp_test` and `recv_one_way_server` of
-- src/server.rs. What the clocks, the sockets and the platform answer is an argument; a failure to
-- write to the control connection, which ends the session, is not represented.
pub mod Streams
pub mod Result
mod Tests
use rperf3_rs.Base.{
  ℕ, ◌+◌, ◌-◌, Option, none, some, List, [], ◌∷◌, ◌++◌, Bool, true, false, if◌then◌else◌, ltb,
}
use rperf3_rs.Base.Try.{◌>>=◌}
use rperf3_rs.Base.Text.{String}
use rperf3_rs.Base.Float.{Float}
use rperf3_rs.Config.{Config, send, receive, two_way}
use rperf3_rs.Protocol
use rperf3_rs.Protocol.{Message, default_stream_id, setup_ack, result, done}
use rperf3_rs.Measurements.Data.{
  Measurements, StreamStats, ServerOneWayStats, total_bits_per_second,
}
use rperf3_rs.Measurements.Collector.{MeasurementsCollector, collect_start_time, get}
use rperf3_rs.Handshake.{ServerTest, tcp_test, udp_test, handle_setup}
use rperf3_rs.UdpPacket.{TimestampCache}
use rperf3_rs.OneWay
use rperf3_rs.OneWay.{Progress, finished, broken, waiting, receiver_new, receive_loop, stats_of}
use rperf3_rs.Sender.{payload_size_of}
use rperf3_rs.Traffic.{Plan, Transfer}
use rperf3_rs.Traffic.Tcp.{ReadRound, WriteRound, server_receive_data, server_send_data}
use rperf3_rs.Traffic.UdpReceive.{RecvRound, receive_udp_data}
use rperf3_rs.Traffic.UdpSend.{SendRound, send_udp_data}

-- What a session meets: the system clock in seconds and the `Instant` at which the test is started,
-- the clocks around its loop, the rounds of the loop that it runs, whether the last flush succeeds,
-- whether the UDP socket is bound and, for a sender, connected to the client that it heard from.
pub record Inputs : Type 0 where
  pub now_secs : ℕ
  pub started : ℕ
  pub start : ℕ
  pub ended_at : ℕ
  pub reads : List ReadRound
  pub writes : List WriteRound
  pub flushed : Bool
  pub bound : Bool
  pub recvs : List RecvRound
  pub sends : List SendRound
  pub cache : TimestampCache
  pub one_way : List OneWay.Round

-- What a session wrote to the control connection, what it left in the server's collector, and
-- whether it ended without an error.
pub record Session (F : Type 0) : Type 0 where
  pub written : List (Message F)
  pub collector : MeasurementsCollector F
  pub is_ok : Bool

-- The loop's plan: stream 0, reported under the default id
unfoldable pub plan_of : Config → ℕ → Inputs → Plan
plan_of config duration i = record {
  start = i.start;
  duration = duration;
  interval = config.interval;
  stream_id = 0;
  report_id = default_stream_id;
}

abbrev pub is_some : {A : Type 0} → Option A → Bool
is_some none = false
is_some (some a) = true

module _ (fl : Float) where
  open fl use {F, as_secs}

  -- `recv_one_way_server` on Linux: with several workers it returns what these (`workers`) do. `none`
  -- while it runs, and then `none` again for an error.
  unfoldable pub recv_one_way_server :
      ℕ
      → ℕ
      → ℕ
      → List OneWay.Round
      → ℕ
      → Option (ServerOneWayStats F)
      → Option (Option (ServerOneWayStats F))
  recv_one_way_server recv_workers duration start rounds ended_at workers =
      if ltb 1 recv_workers
      then some workers
      else elim (receive_loop (start + duration) (receiver_new start) rounds) [
        | finished r ↦ some (some (stats_of fl r (ended_at - start)))
        | broken ↦ some none
        | waiting r ↦ none
      ]

  -- The replies to the Setup message
  unfoldable pub replies : Config → String → Inputs → List (Message F)
  replies config client_addr i = setup_ack config.port client_addr ∷ Protocol.start i.now_secs ∷ []

  -- The final messages: the result of the first stream, if there is one, and Done
  unfoldable pub stream_result : Measurements F → List StreamStats → List (Message F)
  stream_result m [] = []
  stream_result m (s ∷ ss) =
      result 0 s.bytes_sent s.bytes_received (as_secs m.total_duration) (total_bits_per_second fl m)
        none
      ∷ []

  unfoldable pub final_messages : Measurements F → List (Message F)
  final_messages m = stream_result m m.streams ++ (done ∷ [])

  -- The end of a TCP test: an error of the loop ends the session before its result.
  unfoldable pub end_tcp : List (Message F) → Bool → Transfer F → Session F
  end_tcp written false t = record { written = written; collector = t.collector; is_ok = false }
  end_tcp written true t = record {
    written = written ++ final_messages (get t.collector);
    collector = t.collector;
    is_ok = true;
  }

  -- The end of a UDP test
  unfoldable pub end_udp : List (Message F) → Transfer F → Session F
  end_udp written t = record { written = written; collector = t.collector; is_ok = true }

  -- The TCP part of `handle_tcp_client`, after the Setup message; `none` while its loop runs
  unfoldable pub tcp_session :
      Config → String → ℕ → Bool → Option ℕ → Inputs → MeasurementsCollector F → Option (Session F)
  tcp_session config client_addr duration reverse bandwidth i c =
      let written = replies config client_addr i in
      let c1 = collect_start_time c i.started in
      let plan = plan_of config duration i in
      if reverse
      then (do
        (flushed, t) ← server_send_data fl plan bandwidth c1 i.writes i.ended_at i.flushed
        some (end_tcp written flushed t))
      else (do t ← server_receive_data fl plan c1 i.reads i.ended_at; some (end_tcp written true t))

  -- The branches of `handle_udp_test`, `config` with the client's parameters
  unfoldable pub udp_send_test :
      Config → List (Message F) → Inputs → MeasurementsCollector F → Option (Session F)
  udp_send_test config written i c =
      if i.bound
      then (do
        t ←
            send_udp_data fl (plan_of config config.duration i) config.bandwidth
              (payload_size_of config.buffer_size) c i.cache i.sends i.ended_at
        some (end_udp written t))
      else some (record { written = written; collector = c; is_ok = false })

  unfoldable pub udp_receive_test :
      Config → List (Message F) → Inputs → MeasurementsCollector F → Option (Session F)
  udp_receive_test config written i c =
      if i.bound
      then (do
        t ← receive_udp_data fl (plan_of config config.duration i) c i.recvs i.ended_at
        some (end_udp written t))
      else some (record { written = written; collector = c; is_ok = false })

  unfoldable pub one_way_test :
      Config
      → List (Message F)
      → Inputs
      → MeasurementsCollector F
      → Option (ServerOneWayStats F)
      → Option (Session F)
  one_way_test config written i c workers =
      if i.bound
      then (do
        stats ←
            recv_one_way_server config.recv_workers config.duration i.start i.one_way i.ended_at
              workers
        some (record { written = written; collector = c; is_ok = is_some stats }))
      else some (record { written = written; collector = c; is_ok = false })

  -- `handle_udp_test`
  unfoldable pub handle_udp_test :
      Config
      → String
      → Inputs
      → MeasurementsCollector F
      → Option (ServerOneWayStats F)
      → Option (Session F)
  handle_udp_test config client_addr i c workers =
      let written = replies config client_addr i in
      let c1 = collect_start_time c i.started in
      elim config.one_way [
        | send ↦ one_way_test config written i c1 workers
        | receive ↦ udp_send_test config written i c1
        | two_way ↦
            if config.reverse
            then udp_send_test config written i c1
            else udp_receive_test config written i c1
      ]

  -- `handle_tcp_client`; a message that is no Setup is an error
  unfoldable pub run_test :
      Config
      → String
      → Option ServerTest
      → Inputs
      → MeasurementsCollector F
      → Option (ServerOneWayStats F)
      → Option (Session F)
  run_test config client_addr none i c workers =
      some (record { written = []; collector = c; is_ok = false })
  run_test config client_addr (some (tcp_test duration reverse bandwidth)) i c workers =
      tcp_session config client_addr duration reverse bandwidth i c
  run_test config client_addr (some (udp_test udp_config)) i c workers =
      handle_udp_test udp_config client_addr i c workers

  unfoldable pub handle_tcp_client :
      Config
      → Message F
      → String
      → Inputs
      → MeasurementsCollector F
      → Option (ServerOneWayStats F)
      → Option (Session F)
  handle_tcp_client config message client_addr i c workers =
      run_test config client_addr (handle_setup config message) i c workers
