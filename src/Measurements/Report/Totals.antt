-- ===== src/Measurements/Report/Totals.antt =====
-- The byte counts that the detailed results of src/measurements.rs report.
use rperf3_rs.Base.{
  ℕ, ◌<◌, ◌^◌, ◌+◌, ◌≡◌, refl, List, [], ◌∷◌, Option, some, arith, Bool-cases, inl, inr,
  if◌then◌else◌,
}
use rperf3_rs.Base.Float.{Float}
use rperf3_rs.Measurements.Data.{IntervalStats}
use rperf3_rs.Measurements.Collector.{
  MeasurementsCollector, record_bytes_sent, record_bytes_received, record_udp_packet,
  record_udp_packet_received, collect_interval, collect_duration, collect_start_time,
  sync_atomic_counters,
}
use rperf3_rs.Measurements.Report.Types.{
  ConnectionInfo, TestConfig, SystemInfo, TestEndInfo, tcp_end, udp_end, DetailedTestResults,
}
use rperf3_rs.Measurements.Report.{
  Surroundings, is_udp, build_tcp_end_info, build_udp_end_info, tcp_summary, get_detailed_results,
}

-- The bytes that the end of the results shows: sent and received, or their sum.
abbrev pub reported_bytes : {F : Type 0} → TestEndInfo F → ℕ
reported_bytes (tcp_end streams sent received cpu s r) = sent.bytes + received.bytes
reported_bytes (udp_end streams sum cpu) = sum.bytes

-- The calls that a test makes on its collector, `sync_atomic_counters` not among them.
pub data Recording (F : Type 0) : Type 0 where
  sent received : ℕ → ℕ → Recording F
  packet : ℕ → Recording F
  arrival : ℕ → ℕ → ℕ → Recording F
  interval : IntervalStats F → Recording F
  duration start_time : ℕ → Recording F

-- The totals under the mutex are still 0.
pub record IsUnsynced {F : Type 0} (c : MeasurementsCollector F) : Type 0 where
  pub sent_zero : c.inner.total_bytes_sent ≡ 0
  pub received_zero : c.inner.total_bytes_received ≡ 0

module _ (fl : Float) where
  abbrev pub apply : MeasurementsCollector (fl.F) → Recording (fl.F) → MeasurementsCollector (fl.F)
  apply c (sent stream_id bytes) = record_bytes_sent c stream_id bytes
  apply c (received stream_id bytes) = record_bytes_received c stream_id bytes
  apply c (packet stream_id) = record_udp_packet c stream_id
  apply c (arrival sequence send recv) = record_udp_packet_received fl c sequence send recv
  apply c (interval i) = collect_interval c i
  apply c (duration d) = collect_duration c d
  apply c (start_time t) = collect_start_time c t

  abbrev pub apply_all :
      MeasurementsCollector (fl.F) → List (Recording (fl.F)) → MeasurementsCollector (fl.F)
  apply_all c [] = c
  apply_all c (r ∷ rs) = apply_all (apply c r) rs

module _ (fl : Float) (env : Surroundings) (c : MeasurementsCollector (fl.F))
    (connection : Option ConnectionInfo) (system : Option SystemInfo) (t : TestConfig) where
  end_of_results :
      (r : DetailedTestResults (fl.F))
      → get_detailed_results fl env c connection system t ≡ some r
      → r.end ≡ (
          if is_udp t
          then build_udp_end_info fl c connection
          else build_tcp_end_info fl (c.inner) connection)
  unfolding get_detailed_results
  end_of_results r e = ground arith

  -- Once the counters are synchronised it shows all of them.
  synced_bytes :
      (r : DetailedTestResults (fl.F))
      → c.inner.total_bytes_sent + c.inner.total_bytes_received < 2 ^ 64
      → get_detailed_results fl env c connection system t ≡ some r
      → reported_bytes r.end ≡ c.inner.total_bytes_sent + c.inner.total_bytes_received
  unfolding build_udp_end_info build_tcp_end_info tcp_summary
  synced_bytes r h e = elim (Bool-cases (is_udp t)) [
    | inl u ↦ rw (end_of_results r e, u) (omega arith)
    | inr u ↦ rw (end_of_results r e, u) refl
  ]

-- With it, they show all the bytes that the counters hold, if these are fewer than 2^64.
reported_bytes-sync_atomic_counters :
    (fl : Float) (env : Surroundings) (connection : Option ConnectionInfo)
    (system : Option SystemInfo) (t : TestConfig) (c : MeasurementsCollector (fl.F))
    (r : DetailedTestResults (fl.F))
    → c.atomic_bytes_sent + c.atomic_bytes_received < 2 ^ 64
    → get_detailed_results fl env (sync_atomic_counters c) connection system t ≡ some r
    → reported_bytes r.end ≡ c.atomic_bytes_sent + c.atomic_bytes_received
unfolding sync_atomic_counters
reported_bytes-sync_atomic_counters fl env connection system t c r h e =
    synced_bytes fl env (sync_atomic_counters c) connection system t r h e
