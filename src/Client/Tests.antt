-- ===== src/Client/Tests.antt =====
-- Runs of the client's sessions, and their theorems at concrete inputs.
use rperf3_rs.Base.{ℕ, ◌≡◌, refl, [], ◌∷◌, none, some, true, false}
use rperf3_rs.Base.Float.{whole_float}
use rperf3_rs.Error.{ok, err, config_error}
use rperf3_rs.Config
use rperf3_rs.Config.{Config, tcp, udp, send, two_way, from_secs}
use rperf3_rs.Protocol.{setup_ack_msg, start_msg, setup_ack, start}
use rperf3_rs.Measurements.Collector.{MeasurementsCollector}
use rperf3_rs.Traffic.Tcp.{ReadRound, read_ok}
use rperf3_rs.Client.{
  Client, Inputs, returned, client_new, check_ack, check_start, notify, client_plan, test_started,
}
use rperf3_rs.Client.Sessions.{
  run, run_tcp, run_udp, udp_test, one_way_send_test, end_one_way, after_handshake,
}
use rperf3_rs.Client.Events.{IsOrderly, run-IsOrderly}
use rperf3_rs.Client.Completion.{IsComplete, run_tcp-IsComplete}

abbrev config : Config
config = record {
  mode = Config.client;
  protocol = tcp;
  port = 5201;
  server_addr = some "10.0.0.1";
  bind_addr = none;
  duration = 1000;
  bandwidth = none;
  buffer_size = 131072;
  parallel = 1;
  reverse = true;
  json = false;
  interval = from_secs 1;
  one_way = two_way;
  expected_pps = none;
  socket_buf = 0;
  recv_workers = 1;
}

abbrev empty : MeasurementsCollector ℕ
empty = record {
  inner = record {
    streams = [];
    intervals = [];
    total_bytes_sent = 0;
    total_bytes_received = 0;
    total_duration = 0;
    total_packets = 0;
    lost_packets = 0;
    out_of_order_packets = 0;
    jitter_ms = 0;
    start_time = none;
  };
  udp_state = record {
    last_sequence = none;
    max_sequence = none;
    received_count = 0;
    last_arrival_us = none;
    last_send_timestamp_us = none;
    jitter_ms = 0;
    out_of_order = 0;
  };
  per_stream = [];
  atomic_bytes_sent = 0;
  atomic_bytes_received = 0;
  atomic_packets = 0;
}

abbrev reading : Client ℕ
reading = record {
  config = config;
  measurements = empty;
  has_callback = true;
  tcp_buffer_pool = record { pool = []; buffer_size = 131072; max_pool_size = 2 };
  udp_buffer_pool = record { pool = []; buffer_size = 65536; max_pool_size = 10 };
  stream_id = 5;
}

abbrev read_at : ℕ → ℕ → ReadRound
read_at now n = record {
  now = now;
  cancelled = false;
  outcome = read_ok n;
  late_at = now;
  clock = record { check = now; elapsed_at = now; interval_at = now; reset_at = now };
  stats = none;
}

abbrev inputs : Inputs ℕ
inputs = record {
  connected = true;
  written = true;
  ack = ok (setup_ack_msg 5201 "10.0.0.2:40000");
  start_signal = ok (start_msg 1700000000);
  started = 90;
  start = 100;
  bucket_at = 100;
  ended_at = 1105;
  reads = read_at 110 10 ∷ read_at 160 20 ∷ read_at 1100 40 ∷ [];
  writes = [];
  flushed = true;
  bound = true;
  cache = record { cached_timestamp_us = 0; last_update = 0; update_interval_us = 1000 };
  batches = [];
  recvs = [];
  greeted = true;
  one_way_sends = [];
  one_way_recvs = [];
  joined = true;
}

-- A client needs an address.
refusal_runs :
    client_new whole_float (record config { server_addr = none })
    ≡ err (config_error "Server address is required for client mode")
unfolding client_new
refusal_runs = refl

-- The tasks of parallel one-way senders may all fail, and the test ends well.
abbrev flooding : Client ℕ
flooding = record reading {
  config = record config { protocol = udp; one_way = send; parallel = 4 };
}

flooding_runs :
    run whole_float flooding inputs
    ≡ returned (record { events = test_started ∷ []; collector = empty; result = ok tt })
unfolding run run_udp after_handshake check_ack check_start udp_test one_way_send_test end_one_way
    notify
flooding_runs = refl

run-IsOrderly_example : IsOrderly reading (run whole_float reading inputs)
run-IsOrderly_example = run-IsOrderly whole_float reading inputs

run_tcp-IsComplete_example :
    IsComplete whole_float reading inputs 30 (run_tcp whole_float reading inputs)
unfolding setup_ack start client_plan
run_tcp-IsComplete_example =
    run_tcp-IsComplete whole_float reading inputs 5201 "10.0.0.2:40000" 1700000000 refl refl refl
      refl refl refl
