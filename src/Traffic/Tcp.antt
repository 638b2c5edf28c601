-- ===== src/Traffic/Tcp.antt =====
-- The TCP loops: `send_data` and `receive_data` of src/client.rs and of src/server.rs.
pub mod Rounds
pub mod Counts
pub mod Reports
use rperf3_rs.Base.{
  ℕ, zero, suc, ◌+◌, ◌-◌, ◌/◌, Option, none, some, List, [], ◌∷◌, ◌++◌, Bool, true, false, not,
  if◌then◌else◌, ltb, leb, add64, u64_max,
}
use rperf3_rs.Base.Try.{◌>>=◌}
use rperf3_rs.Base.Float.{Float}
use rperf3_rs.Measurements.TcpStats.{TcpStats, snd_cwnd_opt}
use rperf3_rs.Measurements.Collector.{
  MeasurementsCollector, record_bytes_sent, record_bytes_received,
}
use rperf3_rs.Traffic.Pacing.{Pacing, pacing_new, pace, bytes_per_sec_of}
use rperf3_rs.Traffic.{
  Plan, Transfer, Clock, is_due, close_interval, Stage, running, ended, run_loop, transfer_new,
  finish_loop,
}

-- What `timeout(.., stream.read(..))` gives.
pub data Read : Type 0 where
  read_ok : ℕ → Read
  read_failed timed_out : Read

-- A round of a receiving loop: `stats` is what `get_tcp_stats` gives, `late_at` the clock after a
-- timeout. The server has no token, so its rounds are not cancelled.
pub record ReadRound : Type 0 where
  pub now : ℕ
  pub cancelled : Bool
  pub outcome : Read
  pub late_at : ℕ
  pub clock : Clock
  pub stats : Option TcpStats

-- A round of a sending loop: `outcome` is what `write` gives, `checked_at` and `paced_at` are the
-- clocks of the bandwidth limit.
pub record WriteRound : Type 0 where
  pub now : ℕ
  pub cancelled : Bool
  pub outcome : Option ℕ
  pub checked_at : ℕ
  pub paced_at : ℕ
  pub clock : Clock
  pub stats : Option TcpStats

-- `tcp_stats.as_ref().map(|s| s.retransmits).unwrap_or(0)`
unfoldable pub current_retransmits : Option TcpStats → ℕ
current_retransmits none = 0
current_retransmits (some s) = s.retransmits

-- `.and_then(|s| s.snd_cwnd_opt()).map(|cwnd| cwnd / 1024)`
unfoldable pub cwnd_kbytes : Option TcpStats → Option ℕ
cwnd_kbytes none = none
cwnd_kbytes (some s) = elim (snd_cwnd_opt s) [ none ↦ none | some cwnd ↦ some (cwnd / 1024) ]

module _ (fl : Float) where
  open fl use {F, of_u64, decimal, as_secs, mul, div, lt, le, to_u64}

  -- The report of a TCP loop, `cwnd` the window that it shows
  unfoldable pub tcp_interval : Plan → Transfer F → Clock → Option TcpStats → Option ℕ → Transfer F
  tcp_interval plan t clock stats cwnd =
      let current = current_retransmits stats in
      let interval_retransmits = current - t.last_retransmits in
      if is_due plan t clock
      then record (close_interval fl plan t clock u64_max (record {
        packets = none;
        jitter_ms = none;
        lost_packets = none;
        lost_percent = none;
        retransmits = if ltb 0 interval_retransmits then some interval_retransmits else none;
        cwnd = cwnd;
      })) { last_retransmits = current }
      else t

  -- What a read of `n` bytes does, and a write of `n` bytes.
  unfoldable pub read_bytes : Plan → Transfer F → ℕ → Transfer F
  read_bytes plan t n = record t {
    collector = record_bytes_received t.collector plan.stream_id n;
    interval_bytes = add64 t.interval_bytes n;
  }

  unfoldable pub written_bytes : Plan → Transfer F → ℕ → Transfer F
  written_bytes plan t n = record t {
    collector = record_bytes_sent t.collector plan.stream_id n;
    interval_bytes = add64 t.interval_bytes n;
  }

  -- The match on the outcome of a read, which both receiving loops have.
  unfoldable pub on_read :
      Plan → Transfer F → Read → ℕ → Clock → Option TcpStats → Stage (Transfer F)
  on_read plan t (read_ok zero) late_at clock stats = ended t
  on_read plan t (read_ok (suc n)) late_at clock stats =
      running (tcp_interval plan (read_bytes plan t (suc n)) clock stats none)
  on_read plan t read_failed late_at clock stats = ended t
  on_read plan t timed_out late_at clock stats =
      if leb plan.duration (late_at - plan.start) then ended t else running t

  -- The match on the result of a write.
  unfoldable pub on_write :
      Plan → Transfer F → Option ℕ → Clock → Option TcpStats → Stage (Transfer F)
  on_write plan t none clock stats = ended t
  on_write plan t (some n) clock stats =
      running (tcp_interval plan (written_bytes plan t n) clock stats (cwnd_kbytes stats))

  -- The body of `receive_data` of src/server.rs
  unfoldable pub server_receive_step : Plan → Transfer F → ReadRound → Stage (Transfer F)
  server_receive_step plan t x =
      if ltb (x.now - plan.start) plan.duration
      then on_read plan t x.outcome x.late_at x.clock x.stats
      else ended t

  -- The body of `receive_data` of src/client.rs
  unfoldable pub client_receive_step : Plan → Transfer F → ReadRound → Stage (Transfer F)
  client_receive_step plan t x =
      if ltb (x.now - plan.start) plan.duration
      then (if x.cancelled then ended t else on_read plan t x.outcome x.late_at x.clock x.stats)
      else ended t

  -- The body of `send_data` of src/client.rs
  unfoldable pub client_send_step : Plan → Transfer F → WriteRound → Stage (Transfer F)
  client_send_step plan t x =
      if ltb (x.now - plan.start) plan.duration
      then (if x.cancelled then ended t else on_write plan t x.outcome x.clock x.stats)
      else ended t

  -- The match on the result of a write, with the bandwidth limit of the server.
  unfoldable pub on_paced_write :
      Plan
      → Option ℕ
      → Transfer F × Pacing F
      → Option ℕ
      → WriteRound
      → Stage (Transfer F × Pacing F)
  on_paced_write plan target s none x = ended s
  on_paced_write plan target s (some n) x = running (
    tcp_interval plan (written_bytes plan s.0 n) x.clock x.stats (cwnd_kbytes x.stats),
    pace fl target s.1 n x.checked_at x.paced_at,
  )

  -- The body of `send_data` of src/server.rs
  unfoldable pub server_send_step :
      Plan → Option ℕ → Transfer F × Pacing F → WriteRound → Stage (Transfer F × Pacing F)
  server_send_step plan target s x =
      if ltb (x.now - plan.start) plan.duration
      then on_paced_write plan target s x.outcome x
      else ended s

  -- `receive_data` of src/server.rs and of src/client.rs
  unfoldable pub server_receive_data :
      Plan → MeasurementsCollector F → List ReadRound → ℕ → Option (Transfer F)
  server_receive_data plan c rounds ended_at =
      finish_loop plan (run_loop (server_receive_step plan) (transfer_new c plan.start) rounds)
        ended_at

  unfoldable pub client_receive_data :
      Plan → MeasurementsCollector F → List ReadRound → ℕ → Option (Transfer F)
  client_receive_data plan c rounds ended_at =
      finish_loop plan (run_loop (client_receive_step plan) (transfer_new c plan.start) rounds)
        ended_at

  -- `send_data` of src/client.rs, with whether the flush at its end succeeds
  unfoldable pub client_send_data :
      Plan → MeasurementsCollector F → List WriteRound → ℕ → Bool → Option (Bool × Transfer F)
  client_send_data plan c rounds ended_at flushed = do
    t ←
        finish_loop plan (run_loop (client_send_step plan) (transfer_new c plan.start) rounds)
          ended_at
    some (flushed, t)

  -- `send_data` of src/server.rs: the variables of its loop, and what it leaves
  unfoldable pub paced_new : Plan → MeasurementsCollector F → Transfer F × Pacing F
  paced_new plan c = (transfer_new c plan.start, pacing_new fl plan.start)

  unfoldable pub without_pacing : Stage (Transfer F × Pacing F) → Stage (Transfer F)
  without_pacing (running s) = running s.0
  without_pacing (ended s) = ended s.0

  unfoldable pub server_send_data :
      Plan
      → Option ℕ
      → MeasurementsCollector F
      → List WriteRound
      → ℕ
      → Bool
      → Option (Bool × Transfer F)
  server_send_data plan bandwidth c rounds ended_at flushed = do
    t ←
        finish_loop plan
          (without_pacing (
            run_loop (server_send_step plan (bytes_per_sec_of bandwidth)) (paced_new plan c)
              rounds))
          ended_at
    some (flushed, t)
