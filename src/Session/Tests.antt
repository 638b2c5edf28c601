-- ===== src/Session/Tests.antt =====
-- Runs of a server's session, and its theorem at a concrete input.
use rperf3_rs.Base.{ℕ, ◌≡◌, refl, [], ◌∷◌, inl, none, some, true, false, arith}
use rperf3_rs.Base.Float.{whole_float}
use rperf3_rs.Config.{Config, server, two_way, tcp, from_secs}
use rperf3_rs.Measurements.Collector.{MeasurementsCollector}
use rperf3_rs.Protocol.{Message, done_msg}
use rperf3_rs.Handshake.{handle_setup}
use rperf3_rs.Traffic.Tcp.{ReadRound, WriteRound, read_ok}
use rperf3_rs.Session.{Inputs, replies, plan_of, tcp_session, handle_tcp_client, run_test}
use rperf3_rs.Session.Result.{IsReported, tcp_session-IsReported}

abbrev config : Config
config = record {
  mode = server;
  protocol = tcp;
  port = 5201;
  server_addr = none;
  bind_addr = none;
  duration = from_secs 10;
  bandwidth = none;
  buffer_size = 131072;
  parallel = 1;
  reverse = false;
  json = false;
  interval = from_secs 1;
  one_way = two_way;
  expected_pps = none;
  socket_buf = 0;
  recv_workers = 1;
}

abbrev empty : MeasurementsCollector ℕ
empty = record {
  inner = record {
    streams = [];
    intervals = [];
    total_bytes_sent = 0;
    total_bytes_received = 0;
    total_duration = 0;
    total_packets = 0;
    lost_packets = 0;
    out_of_order_packets = 0;
    jitter_ms = 0;
    start_time = none;
  };
  udp_state = record {
    last_sequence = none;
    max_sequence = none;
    received_count = 0;
    last_arrival_us = none;
    last_send_timestamp_us = none;
    jitter_ms = 0;
    out_of_order = 0;
  };
  per_stream = [];
  atomic_bytes_sent = 0;
  atomic_bytes_received = 0;
  atomic_packets = 0;
}

abbrev read_at : ℕ → ℕ → ReadRound
read_at now n = record {
  now = now;
  cancelled = false;
  outcome = read_ok n;
  late_at = now;
  clock = record { check = now; elapsed_at = now; interval_at = now; reset_at = now };
  stats = none;
}

abbrev write_at : ℕ → ℕ → WriteRound
write_at now n = record {
  now = now;
  cancelled = false;
  outcome = some n;
  checked_at = now;
  paced_at = now;
  clock = record { check = now; elapsed_at = now; interval_at = now; reset_at = now };
  stats = none;
}

abbrev inputs : Inputs
inputs = record {
  now_secs = 1700000000;
  started = 90;
  start = 100;
  ended_at = 1105;
  reads = read_at 110 10 ∷ read_at 160 20 ∷ read_at 1100 40 ∷ [];
  writes = write_at 110 5 ∷ write_at 1100 40 ∷ [];
  flushed = true;
  bound = true;
  recvs = [];
  sends = [];
  cache = record { cached_timestamp_us = 0; last_update = 0; update_interval_us = 1000 };
  one_way = [];
}

abbrev ended : Message ℕ
ended = done_msg

-- Anything but a Setup ends the session with an error and without a reply.
refusal_runs :
    handle_tcp_client whole_float config ended "10.0.0.1:40000" inputs empty none
    ≡ some (record { written = []; collector = empty; is_ok = false })
unfolding handle_tcp_client run_test handle_setup
refusal_runs = refl

tcp_session-IsReported_example :
    IsReported whole_float
      (replies whole_float config "10.0.0.1:40000" inputs)
      0
      30
      (tcp_session whole_float config "10.0.0.1:40000" 1000 false none inputs empty)
    × IsReported whole_float
        (replies whole_float config "10.0.0.1:40000" inputs)
        5
        0
        (tcp_session whole_float config "10.0.0.1:40000" 1000 true none inputs empty)
unfolding plan_of
tcp_session-IsReported_example =
    tcp_session-IsReported whole_float config "10.0.0.1:40000" 1000 none inputs empty
      (inl (refl, refl, refl)) refl refl refl (omega arith) (omega arith)
