-- ===== src/Measurements/Tests.antt =====
-- Runs of the measurements, and their theorems at concrete inputs.
use rperf3_rs.Base.{ℕ, ◌≡◌, refl, List, [], ◌∷◌, none, some, arith, ◌+◌, ◌%◌, ◌^◌}
use rperf3_rs.Base.Float.{whole_float}
use rperf3_rs.Measurements.Data.{
  StreamStats, stream_stats_new, measurements_new, add_stream, IsSummed, add_stream-IsSummed,
  sum_by,
}
use rperf3_rs.Measurements.Intervals.{push_all, recent, push_all-recent}
use rperf3_rs.Measurements.TcpStats.{TcpStatsDto, from_dto, serialize, serialize-from_dto}
use rperf3_rs.Measurements.Collector.{
  MeasurementsCollector, collector_new, calculate_udp_loss, get, get_or_create_stream, on_stream,
  sent_by, record_udp_packet_received, receive_packet, track_max, is_late, udp_state_default,
}
use rperf3_rs.Measurements.Collector.Atomic.{
  idle, counted, holding, Steps, done, step, count, look_up, add_to_stream, count_sent, get-Steps,
}
use rperf3_rs.Measurements.Collector.Loss.{
  Arrival, receive_all, missing, greatest, calculate_udp_loss-receive_all,
}

abbrev arrival : ℕ → Arrival
arrival n = record { sequence = n; send = 0; recv = 0 }

-- 0 and 1 arrive, then 4, then 3 late; 2 is lost.
abbrev reordered : List Arrival
reordered = arrival 1 ∷ arrival 4 ∷ arrival 3 ∷ []

calculate_udp_loss_runs :
    calculate_udp_loss (receive_all whole_float (collector_new whole_float) (arrival 0 ∷ reordered))
    ≡ (1, 5)
unfolding calculate_udp_loss receive_all record_udp_packet_received receive_packet track_max is_late
    collector_new udp_state_default
calculate_udp_loss_runs = refl

calculate_udp_loss-receive_all_example :
    calculate_udp_loss (receive_all whole_float (collector_new whole_float) (arrival 0 ∷ reordered))
    ≡ (missing (greatest 0 reordered + 1) (arrival 0 ∷ reordered), greatest 0 reordered + 1)
calculate_udp_loss-receive_all_example =
    calculate_udp_loss-receive_all whole_float (arrival 0) reordered (omega arith)
      (refl, (refl, (refl, (refl, tt))))

-- Two tasks send on one stream, step by step in turn.
abbrev c0 : MeasurementsCollector ℕ
c0 = collector_new whole_float

abbrev c1 : MeasurementsCollector ℕ
c1 = count_sent c0 100

abbrev c2 : MeasurementsCollector ℕ
c2 = count_sent c1 50

abbrev c3 : MeasurementsCollector ℕ
c3 = (get_or_create_stream c2 7).1

abbrev c4 : MeasurementsCollector ℕ
c4 = (get_or_create_stream c3 7).1

abbrev i1 : ℕ
i1 = (get_or_create_stream c2 7).0

abbrev i2 : ℕ
i2 = (get_or_create_stream c3 7).0

abbrev c5 : MeasurementsCollector ℕ
c5 = on_stream c4 i1 (sent_by 100)

abbrev c6 : MeasurementsCollector ℕ
c6 = on_stream c5 i2 (sent_by 50)

in_turn : Steps c0 (idle ∷ idle ∷ []) c6 (idle ∷ idle ∷ [])
in_turn = step (count [] (idle ∷ []) 7 100) (
    step (count (counted 7 100 ∷ []) [] 7 50) (
      step (look_up [] (counted 7 50 ∷ []) 7 100) (
        step (look_up (holding i1 100 ∷ []) [] 7 50) (
          step (add_to_stream [] (holding i2 50 ∷ []) i1 100)
            (step (add_to_stream (idle ∷ []) [] i2 50) done)))))

get-Steps_example :
    (get c6).total_bytes_sent % 2 ^ 64 ≡ sum_by (λ s. s.bytes_sent) (get c6).streams % 2 ^ 64
get-Steps_example = get-Steps whole_float in_turn (refl, (refl, tt)) (refl, (refl, tt))

abbrev three : List ℕ
three = 1 ∷ 2 ∷ 3 ∷ []

push_all-recent_example : push_all [] three ≡ recent three
push_all-recent_example = push_all-recent three

abbrev dto : TcpStatsDto
dto = record { retransmits = 5; snd_cwnd = none; rtt = some 100; rttvar = none; pmtu = some 1500 }

serialize-from_dto_example : serialize (from_dto dto) ≡ dto
serialize-from_dto_example = serialize-from_dto dto

abbrev stream : StreamStats
stream = record (stream_stats_new 3) { bytes_sent = 10; bytes_received = 20 }

measurements_new-IsSummed : IsSummed (measurements_new whole_float)
unfolding measurements_new
measurements_new-IsSummed = record { sent = refl; received = refl }

add_stream-IsSummed_example : IsSummed (add_stream (measurements_new whole_float) stream)
add_stream-IsSummed_example =
    add_stream-IsSummed (measurements_new whole_float) stream measurements_new-IsSummed
