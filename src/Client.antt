-- ===== src/Client.antt =====
-- The client of src/client.rs around its traffic loops: `Client::new`, the progress events that its
-- callback gets, and a TCP test after the handshake; Sessions has the rest of `run_tcp`, and `run_udp`
-- on Linux. The failures of the platform are arguments; what is printed is left out.
pub mod Sessions
pub mod Events
pub mod Completion
mod Tests
use Prim.Native.String
use rperf3_rs.Base.{
  ℕ, ◌/◌, ◌*◌, Option, none, some, List, [], ◌∷◌, ◌++◌, Bool, true, false, map, if◌then◌else◌, ltb,
  leb, add64, replicate,
}
use rperf3_rs.Base.Try.{◌>>=◌}
use rperf3_rs.Base.Text.{String}
use rperf3_rs.Base.Float.{Float}
use rperf3_rs.BufferPool
use rperf3_rs.BufferPool.{BufferPool}
use rperf3_rs.Error.{Error, io_error, protocol_error, config_error, Result, ok, err}
use rperf3_rs.Config.{Config, tcp, udp, send, receive, two_way}
use rperf3_rs.Protocol.{Message, default_stream_id, setup_ack_msg, start_msg, error_msg}
use rperf3_rs.UdpPacket.{TimestampCache}
use rperf3_rs.TokenBucket
use rperf3_rs.TokenBucket.{TokenBucket}
use rperf3_rs.Measurements.Data.{Measurements, total_bits_per_second}
use rperf3_rs.Measurements.Collector.{
  MeasurementsCollector, collector_new, collect_start_time, get, calculate_udp_loss,
}
use rperf3_rs.Reporter.{IntervalUpdate, run_reporter_task}
use rperf3_rs.Reporter.Effects.{updates_in}
use rperf3_rs.Sender
use rperf3_rs.Sender.{payload_size_of, adaptive_batch_size}
use rperf3_rs.Traffic.{Plan, Transfer, Stage, running, ended, run_loop}
use rperf3_rs.Traffic.Tcp.{ReadRound, WriteRound, client_receive_data, client_send_data}
use rperf3_rs.Traffic.UdpReceive.{RecvRound, run_udp_receive, percent_of}
use rperf3_rs.Traffic.UdpBatched.{BatchRound, run_udp_send_batched}
use rperf3_rs.OneWayClient
use rperf3_rs.OneWayClient.{
  OneWaySender, OneWayReceiver, send_one_way, one_way_receiver_new, recv_one_way_step,
}

-- `ProgressEvent::TestCompleted`
pub record TestCompleted (F : Type 0) : Type 0 where
  pub total_bytes : ℕ
  pub duration : ℕ
  pub bits_per_second : F
  pub total_packets : Option ℕ
  pub jitter_ms : Option F
  pub lost_packets : Option ℕ
  pub lost_percent : Option F
  pub out_of_order : Option ℕ

-- `ProgressEvent`
pub data ProgressEvent (F : Type 0) : Type 0 where
  test_started : ProgressEvent F
  interval_update : IntervalUpdate F → ProgressEvent F
  test_completed : TestCompleted F → ProgressEvent F
  error_event : String → ProgressEvent F

pub record Client (F : Type 0) : Type 0 where
  pub config : Config
  pub measurements : MeasurementsCollector F
  pub has_callback : Bool
  pub tcp_buffer_pool : BufferPool
  pub udp_buffer_pool : BufferPool
  pub stream_id : ℕ

-- What a session meets: whether the connections are opened and the Setup message leaves, what the two
-- reads of the handshake give, the clocks, the rounds of the loop that it runs, whether its last flush
-- succeeds, whether the packet that opens a reverse UDP test leaves, and whether the tasks of
-- parallel one-way senders have all ended.
pub record Inputs (F : Type 0) : Type 0 where
  pub connected : Bool
  pub written : Bool
  pub ack : Result (Message F)
  pub start_signal : Result (Message F)
  pub started : ℕ
  pub start : ℕ
  pub bucket_at : ℕ
  pub ended_at : ℕ
  pub reads : List ReadRound
  pub writes : List WriteRound
  pub flushed : Bool
  pub bound : Bool
  pub cache : TimestampCache
  pub batches : List BatchRound
  pub recvs : List RecvRound
  pub greeted : Bool
  pub one_way_sends : List OneWayClient.SendRound
  pub one_way_recvs : List OneWayClient.RecvRound
  pub joined : Bool

-- A session that returned: the events that the callback got, in order, and the collector.
pub record Ended (F : Type 0) : Type 0 where
  pub events : List (ProgressEvent F)
  pub collector : MeasurementsCollector F
  pub result : Result Unit

pub data Run (F : Type 0) : Type 0 where
  ongoing panicked : Run F
  returned : Ended F → Run F

-- The replies: a SetupAck, and then a Start
unfoldable pub check_ack : {F : Type 0} → Result (Message F) → Result Unit
check_ack (ok (setup_ack_msg port cookie)) = ok tt
check_ack (ok (error_msg message)) = err (protocol_error (String.◌++◌ "Server error: " message))
check_ack (ok _) = err (protocol_error "Expected SetupAck message")
check_ack (err e) = err e

unfoldable pub check_start : {F : Type 0} → Result (Message F) → Result Unit
check_start (ok (start_msg timestamp)) = ok tt
check_start (ok _) = err (protocol_error "Expected Start message")
check_start (err e) = err e

-- `self.notify(..)`, for events one after another
unfoldable pub notify : {F : Type 0} → Client F → List (ProgressEvent F) → List (ProgressEvent F)
notify client events = if client.has_callback then events else []

-- The plan of a loop: stream `recorded_id`, reported under the client's id
unfoldable pub client_plan : {F : Type 0} → Client F → ℕ → Inputs F → Plan
client_plan client recorded_id i = record {
  start = i.start;
  duration = client.config.duration;
  interval = client.config.interval;
  stream_id = recorded_id;
  report_id = client.stream_id;
}

-- A session that an error of the system ends after some events; its text is the name of the call
unfoldable pub fail : {F : Type 0} → Client F → List (ProgressEvent F) → String → Run F
fail client events message = returned (record {
  events = notify client events;
  collector = client.measurements;
  result = err (io_error message);
})

-- `config.bandwidth.map(|bw| TokenBucket::new(bw / 8))`
unfoldable pub bucket_of : Option ℕ → ℕ → Option TokenBucket
bucket_of none now = none
bucket_of (some bandwidth) now = some (TokenBucket.new (bandwidth / 8) now)

module _ (fl : Float) where
  open fl use {F}

  -- `Client::new`; `with_callback` sets the callback
  unfoldable pub client_new : Config → Result (Client F)
  client_new config = elim config.server_addr [
    | none ↦ err (config_error "Server address is required for client mode")
    | some addr ↦ ok (record {
      config = config;
      measurements = collector_new fl;
      has_callback = false;
      tcp_buffer_pool = BufferPool.new config.buffer_size (config.parallel * 2);
      udp_buffer_pool = BufferPool.new 65536 10;
      stream_id = default_stream_id;
    })
  ]

  unfoldable pub with_callback : Client F → Client F
  with_callback client = record client { has_callback = true }

  -- The updates of the reporter task, which a loop waits for
  unfoldable pub updates_of : Client F → Transfer F → List (IntervalUpdate F)
  updates_of client t =
      updates_in (run_reporter_task fl client.config.json client.has_callback t.messages)

  -- The final event of a TCP test and of a UDP test
  unfoldable pub tcp_completed : Measurements F → TestCompleted F
  tcp_completed m = record {
    total_bytes = add64 m.total_bytes_sent m.total_bytes_received;
    duration = m.total_duration;
    bits_per_second = total_bits_per_second fl m;
    total_packets = none;
    jitter_ms = none;
    lost_packets = none;
    lost_percent = none;
    out_of_order = none;
  }

  unfoldable pub udp_completed : MeasurementsCollector F → TestCompleted F
  udp_completed c =
      let m = get c in
      let (lost, expected) = calculate_udp_loss c in
      record {
        total_bytes = add64 m.total_bytes_sent m.total_bytes_received;
        duration = m.total_duration;
        bits_per_second = total_bits_per_second fl m;
        total_packets = some m.total_packets;
        jitter_ms = some m.jitter_ms;
        lost_packets = some lost;
        lost_percent = some (percent_of fl lost expected);
        out_of_order = some m.out_of_order_packets;
      }

  -- The end of a test whose loop returned, with its last event
  unfoldable pub complete : Client F → Transfer F → TestCompleted F → Run F
  complete client t completed = returned (record {
    events = notify client (
        test_started
        ∷ (map interval_update (updates_of client t) ++ (test_completed completed ∷ [])));
    collector = t.collector;
    result = ok tt;
  })

  unfoldable pub end_tcp : Client F → Bool → Transfer F → Run F
  end_tcp client true t = complete client t (tcp_completed (get t.collector))
  end_tcp client false t = returned (record {
    events = notify client (test_started ∷ map interval_update (updates_of client t));
    collector = t.collector;
    result = err (io_error "flush");
  })

  -- `run_tcp` after its handshake; the messages read at its end only change what is logged
  unfoldable pub tcp_test : Client F → Inputs F → Run F
  tcp_test client i =
      let c = collect_start_time client.measurements i.started in
      let plan = client_plan client client.stream_id i in
      if client.config.reverse
      then elim (client_receive_data fl plan c i.reads i.ended_at) [
        | none ↦ ongoing
        | some t ↦ end_tcp client true t
      ]
      else elim (client_send_data fl plan c i.writes i.ended_at i.flushed) [
        | none ↦ ongoing
        | some (flushed, t) ↦ end_tcp client flushed t
      ]
