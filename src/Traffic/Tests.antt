-- ===== src/Traffic/Tests.antt =====
-- Runs of the traffic loops, and their theorems at concrete inputs.
use rperf3_rs.Base.{
  ℕ, ◌%◌, ◌^◌, ◌≡◌, refl, sym, ap, List, [], ◌∷◌, none, some, true, false, arith, length,
}
use rperf3_rs.Base.Float.{whole_float}
use rperf3_rs.UdpPacket.{
  Readings, TimestampCache, create_packet_fast, get_timestamp, to_bytes, header_new,
}
use rperf3_rs.Batch.Send.{
  took, send_batch_new, add, is_full, send_batch_len, send_batch_is_empty, send_mmsg,
  send_mmsg_sync,
}
use rperf3_rs.Sender
use rperf3_rs.Sender.{fill_batch, fill_one, may_fill}
use rperf3_rs.Measurements.Collector.{MeasurementsCollector, udp_state_default}
use rperf3_rs.Traffic.{Plan, Transfer, Clock, run_loop, state_of, transfer_new}
use rperf3_rs.Traffic.Books.{IsSpaced}
use rperf3_rs.Traffic.Tcp.{
  ReadRound, WriteRound, read_ok, server_receive_step, client_receive_step, client_send_step,
  server_send_step, paced_new, server_receive_data, client_receive_data, server_send_data,
  client_send_data,
}
use rperf3_rs.Traffic.Tcp.Rounds.{received_of, sent_of}
use rperf3_rs.Traffic.Tcp.Counts.{IsCounted, received_in, sent_in, receive_data-get, send_data-get}
use rperf3_rs.Traffic.Tcp.Reports.{IsBooked, tcp_loops-IsBooked, tcp_loops-IsSpaced}
use rperf3_rs.Traffic.UdpReceive
use rperf3_rs.Traffic.UdpReceive.{
  RecvRound, StandardRound, server_udp_step, client_udp_step, standard_step, batched_step,
}
use rperf3_rs.Traffic.UdpReceive.Delivery.{
  server_stops, client_stops, recv_arrivals, standard_arrivals, batch_arrivals,
}
use rperf3_rs.Traffic.UdpReceive.Loops.{IsDelivered, udp_loops-IsDelivered}
use rperf3_rs.Traffic.UdpSend
use rperf3_rs.Traffic.UdpSend.{
  SendRound, run_server_sending, run_client_sending, on_client_send, client_sending_new,
}
use rperf3_rs.Traffic.UdpSend.Numbers.{IsSent, udp_sending-IsSent}
use rperf3_rs.Traffic.UdpBatched
use rperf3_rs.Traffic.UdpBatched.{
  BatchRound, run_batched_sending, batched_sending_new, send_filled, on_sent,
}
use rperf3_rs.Traffic.Lossless.{IsLossless, server_collector, sent-IsLossless}

abbrev plan : Plan
plan = record { start = 100; duration = 1000; interval = 50; stream_id = 0; report_id = 5 }

abbrev empty : MeasurementsCollector ℕ
empty = record {
  inner = record {
    streams = [];
    intervals = [];
    total_bytes_sent = 0;
    total_bytes_received = 0;
    total_duration = 0;
    total_packets = 0;
    lost_packets = 0;
    out_of_order_packets = 0;
    jitter_ms = 0;
    start_time = none;
  };
  udp_state = record {
    last_sequence = none;
    max_sequence = none;
    received_count = 0;
    last_arrival_us = none;
    last_send_timestamp_us = none;
    jitter_ms = 0;
    out_of_order = 0;
  };
  per_stream = [];
  atomic_bytes_sent = 0;
  atomic_bytes_received = 0;
  atomic_packets = 0;
}

abbrev clock_at : ℕ → Clock
clock_at n = record { check = n; elapsed_at = n; interval_at = n; reset_at = n }

abbrev read_at : ℕ → ℕ → ReadRound
read_at now n = record {
  now = now;
  cancelled = false;
  outcome = read_ok n;
  late_at = now;
  clock = clock_at now;
  stats = none;
}

abbrev write_at : ℕ → ℕ → WriteRound
write_at now n = record {
  now = now;
  cancelled = false;
  outcome = some n;
  checked_at = now;
  paced_at = now;
  clock = clock_at now;
  stats = none;
}

-- Two reads, the second of which closes an interval, and one after the end of the test.
abbrev reads : List ReadRound
reads = read_at 110 10 ∷ read_at 160 20 ∷ read_at 1100 40 ∷ []

abbrev writes : List WriteRound
writes = write_at 110 10 ∷ write_at 160 20 ∷ write_at 1100 40 ∷ []

receive_data-get_example :
    ((t : Transfer ℕ) × IsCounted whole_float plan
        (received_in whole_float plan)
        30
        (server_receive_data whole_float plan empty reads 1105)
        t)
    × ((t : Transfer ℕ) × IsCounted whole_float plan
          (received_in whole_float plan)
          30
          (client_receive_data whole_float plan empty reads 1105)
          t)
receive_data-get_example = receive_data-get whole_float plan empty reads reads 1105 refl refl

send_data-get_example :
    ((t : Transfer ℕ) × (server_send_data whole_float plan (some 8000) empty writes 1105 true
        ≡ some (true, t))
      × (sent_in whole_float plan t.collector % 2 ^ 64 ≡ 30 % 2 ^ 64))
    × ((t : Transfer ℕ) × (client_send_data whole_float plan empty writes 1105 true
          ≡ some (true, t))
        × (sent_in whole_float plan t.collector % 2 ^ 64 ≡ 30 % 2 ^ 64))
send_data-get_example =
    send_data-get whole_float plan (some 8000) empty writes writes 1105 true refl refl

tcp_loops-IsBooked_example :
    let t = transfer_new empty 100 in
    let received = IsBooked whole_float plan received_of 0 in
    let sent = IsBooked whole_float plan sent_of 0 in
    received (state_of (run_loop (server_receive_step whole_float plan) t reads))
    × received (state_of (run_loop (client_receive_step whole_float plan) t reads))
    × sent (state_of (run_loop (client_send_step whole_float plan) t writes))
    × sent
        (state_of (
          run_loop
            (server_send_step whole_float plan none)
            (paced_new whole_float plan empty)
            writes)).0
tcp_loops-IsBooked_example = tcp_loops-IsBooked whole_float plan none empty reads writes

tcp_loops-IsSpaced_example :
    let t = transfer_new empty 100 in
    IsSpaced plan (state_of (run_loop (server_receive_step whole_float plan) t reads))
    × IsSpaced plan (state_of (run_loop (client_receive_step whole_float plan) t reads))
    × IsSpaced plan (state_of (run_loop (client_send_step whole_float plan) t writes))
    × IsSpaced plan
        (state_of (
          run_loop
            (server_send_step whole_float plan none)
            (paced_new whole_float plan empty)
            writes)).0
tcp_loops-IsSpaced_example =
    tcp_loops-IsSpaced whole_float plan none empty reads writes (omega arith) (omega arith)

-- The first two packets of a sender, whose clocks stand still.
abbrev clocks : Readings
clocks = record { elapsed_at = 0; wall_us = 7; updated_at = 0 }

abbrev cache : TimestampCache
cache = record { cached_timestamp_us = 7; last_update = 0; update_interval_us = 1000 }

abbrev packet : ℕ → List ℕ
packet n =
    0x52 ∷ 0x50 ∷ 0x46 ∷ 0x33 ∷ 0 ∷ 0 ∷ 0 ∷ 0 ∷ 0 ∷ 0 ∷ 0 ∷ n ∷ 0 ∷ 0 ∷ 0 ∷ 0 ∷ 0 ∷ 0 ∷ 0 ∷ 7 ∷ 0
    ∷ []

abbrev arrives : ℕ → UdpReceive.Received → RecvRound
arrives now outcome = record {
  now = now;
  cancelled = false;
  outcome = outcome;
  wall_us = 9;
  clock = clock_at now;
}

abbrev recvs : List RecvRound
recvs =
    arrives 110 (UdpReceive.datagram (packet 0))
    ∷ arrives 150 UdpReceive.timed_out
    ∷ arrives 170 (UdpReceive.datagram (packet 1))
    ∷ arrives 1100 UdpReceive.timed_out
    ∷ []

abbrev standard : List StandardRound
standard =
    record { cancelled = false; outcome = some (packet 0); wall_us = 9; clock = clock_at 110 }
    ∷ record { cancelled = true; outcome = none; wall_us = 9; clock = clock_at 120 }
    ∷ []

udp_loops-IsDelivered_example :
    IsDelivered whole_float plan
      (server_udp_step whole_float plan)
      (server_stops plan)
      recv_arrivals
      empty
      recvs
    × IsDelivered whole_float plan
        (client_udp_step whole_float plan)
        (client_stops plan)
        recv_arrivals
        empty
        recvs
    × IsDelivered whole_float plan
        (standard_step whole_float plan)
        (λ x. x.cancelled)
        standard_arrivals
        empty
        standard
    × IsDelivered whole_float plan
        (batched_step whole_float plan)
        (λ x. x.cancelled)
        batch_arrivals
        empty
        []
udp_loops-IsDelivered_example = udp_loops-IsDelivered whole_float plan empty recvs standard []

abbrev send_at : ℕ → SendRound
send_at now = record {
  now = now;
  cancelled = false;
  readings = clocks;
  outcome = some 21;
  checked_at = now;
  paced_at = now;
  clock = clock_at now;
}

abbrev sends : List SendRound
sends = send_at 110 ∷ send_at 170 ∷ send_at 1100 ∷ []

udp_sending-IsSent_example :
    let s = state_of (run_server_sending whole_float plan none 1 empty cache sends) in
    let r = state_of (run_client_sending whole_float plan none 1 empty cache sends) in
    IsSent 1 0 s.transfer s.sent × IsSent 1 0 r.transfer r.sent
udp_sending-IsSent_example = udp_sending-IsSent whole_float plan none none 1 empty cache sends

abbrev sizes : Sender.Plan ℕ
sizes = record { batch_size = 2; payload_size = 1; duration = 1000; remote_addr = 5201 }

abbrev pass : Sender.Pass
pass = record { since_start = 1; readings = clocks }

abbrev batches : List BatchRound
batches =
    record {
      now = 110;
      cancelled = false;
      passes = pass ∷ pass ∷ pass ∷ [];
      result = took (21 ∷ 21 ∷ []);
      checked_at = 110;
      woken_at = 110;
      clock = clock_at 110;
    }
    ∷ []

-- What the two senders sent.
single_runs :
    (state_of (run_client_sending whole_float plan none 1 empty cache sends)).sent
    ≡ packet 0 ∷ packet 1 ∷ []
unfolding run_client_sending run_loop UdpSend.client_send_step on_client_send client_sending_new
    transfer_new create_packet_fast get_timestamp to_bytes header_new
single_runs = refl

batches_runs :
    (state_of (run_batched_sending whole_float plan sizes none empty cache batches)).sent
    ≡ packet 0 ∷ packet 1 ∷ []
unfolding run_batched_sending run_loop UdpBatched.batched_step batched_sending_new send_batch_new
    send_filled on_sent fill_batch fill_one may_fill add is_full send_batch_len send_batch_is_empty
    send_mmsg send_mmsg_sync create_packet_fast get_timestamp to_bytes header_new
batches_runs = refl

-- The collector of a server that ran a TCP test before.
abbrev served : MeasurementsCollector ℕ
served = record empty { atomic_bytes_received = 4096 }

sent-IsLossless_example :
    IsLossless whole_float
      (server_collector whole_float plan served recvs)
      (length (state_of (run_client_sending whole_float plan none 1 empty cache sends)).sent)
    × IsLossless whole_float (server_collector whole_float plan served recvs) (
        length
          (state_of (run_batched_sending whole_float plan sizes none empty cache batches)).sent)
unfolding udp_state_default
sent-IsLossless_example =
    sent-IsLossless whole_float plan plan sizes none empty served cache sends batches recvs recvs
      refl
      (sym single_runs, omega (arith, ap length single_runs), omega (arith, ap length single_runs))
      (
        sym batches_runs,
        omega (arith, ap length batches_runs),
        omega (arith, ap length batches_runs),
      )
