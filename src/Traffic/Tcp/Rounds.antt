-- ===== src/Traffic/Tcp/Rounds.antt =====
-- The rounds of the TCP loops of src/client.rs and src/server.rs: which of them end a loop, and what
-- the others move.
use rperf3_rs.Base.{
  ℕ, zero, suc, ◌-◌, ◌≡◌, refl, ◌⊎◌, Option, none, some, Bool, true, false, ◌||◌, if◌then◌else◌,
  ltb, leb, arith, dec_lt, lt→ltb, add64, u64_max, Bool-cases, inl, inr,
}
use rperf3_rs.Base.Float.{Float}
use rperf3_rs.Measurements.TcpStats.{TcpStats}
use rperf3_rs.Measurements.Collector.{
  MeasurementsCollector, record_bytes_sent, record_bytes_received, on_stream, collect_interval,
}
use rperf3_rs.Traffic.{Plan, Transfer, Clock, is_due, close_interval, Stage, ended, IsRound}
use rperf3_rs.Traffic.Books.{
  bytes_booked, SameTotals, SameTotals-refl, close_interval-books, IsSpaced, IsClock,
  close_interval-IsSpaced, get_or_create_stream-SameTotals,
}
use rperf3_rs.Traffic.Pacing.{Pacing}
use rperf3_rs.Traffic.Tcp.{
  Read, read_ok, read_failed, timed_out, ReadRound, WriteRound, tcp_interval, read_bytes,
  written_bytes, on_paced_write, on_read, on_write, cwnd_kbytes, server_receive_step,
  client_receive_step, client_send_step, server_send_step,
}

-- The rounds that end a receiving loop, and what the others read.
abbrev pub read_stops : Plan → Read → ℕ → Bool
read_stops plan (read_ok zero) late_at = true
read_stops plan (read_ok (suc n)) late_at = false
read_stops plan read_failed late_at = true
read_stops plan timed_out late_at = leb plan.duration (late_at - plan.start)

abbrev pub is_over : Plan → ℕ → Bool
is_over plan now = leb plan.duration (now - plan.start)

abbrev pub server_stops_reading : Plan → ReadRound → Bool
server_stops_reading plan x = is_over plan x.now || read_stops plan x.outcome x.late_at

abbrev pub client_stops_reading : Plan → ReadRound → Bool
client_stops_reading plan x =
    is_over plan x.now || (x.cancelled || read_stops plan x.outcome x.late_at)

abbrev pub bytes_of : Read → ℕ
bytes_of (read_ok n) = n
bytes_of read_failed = 0
bytes_of timed_out = 0

abbrev pub bytes_read : ReadRound → ℕ
bytes_read x = bytes_of x.outcome

-- The rounds that end a sending loop, and what the others write.
abbrev pub write_fails : Option ℕ → Bool
write_fails none = true
write_fails (some n) = false

abbrev pub server_stops_writing : Plan → WriteRound → Bool
server_stops_writing plan x = is_over plan x.now || write_fails x.outcome

abbrev pub client_stops_writing : Plan → WriteRound → Bool
client_stops_writing plan x = is_over plan x.now || (x.cancelled || write_fails x.outcome)

abbrev pub written_of : Option ℕ → ℕ
written_of none = 0
written_of (some n) = n

abbrev pub bytes_written : WriteRound → ℕ
bytes_written x = written_of x.outcome

module _ {F : Type 0} where
  -- The totals that the loops move.
  abbrev pub received_of : Transfer F → ℕ
  received_of t = t.collector.atomic_bytes_received

  abbrev pub sent_of : Transfer F → ℕ
  sent_of t = t.collector.atomic_bytes_sent

  pub record_bytes_received-totals :
      (c : MeasurementsCollector F) (id n : ℕ)
      → let d = record_bytes_received c id n in
        (d.atomic_bytes_received ≡ add64 c.atomic_bytes_received n)
        × (d.atomic_bytes_sent ≡ c.atomic_bytes_sent)
        × (d.atomic_packets ≡ c.atomic_packets)
        × (d.udp_state ≡ c.udp_state)
  unfolding record_bytes_received on_stream
  record_bytes_received-totals c id n =
      let v =
        get_or_create_stream-SameTotals
          (record c { atomic_bytes_received = add64 c.atomic_bytes_received n }) id in
      (v.received, v.sent, v.packets, v.udp)

  pub record_bytes_sent-totals :
      (c : MeasurementsCollector F) (id n : ℕ)
      → let d = record_bytes_sent c id n in
        (d.atomic_bytes_sent ≡ add64 c.atomic_bytes_sent n)
        × (d.atomic_bytes_received ≡ c.atomic_bytes_received)
        × (d.atomic_packets ≡ c.atomic_packets)
        × (d.udp_state ≡ c.udp_state)
  unfolding record_bytes_sent on_stream
  record_bytes_sent-totals c id n =
      let v =
        get_or_create_stream-SameTotals
          (record c { atomic_bytes_sent = add64 c.atomic_bytes_sent n }) id in
      (v.sent, v.received, v.packets, v.udp)

module _ (fl : Float) (plan : Plan) where
  open fl use {F}

  pub tcp_interval-books :
      (t : Transfer F) (clock : Clock) (stats : Option TcpStats) (cwnd : Option ℕ)
      → let u = tcp_interval fl plan t clock stats cwnd in
        (bytes_booked u ≡ bytes_booked t) × SameTotals t.collector u.collector
  unfolding tcp_interval
  tcp_interval-books t clock stats cwnd = elim (Bool-cases (is_due plan t clock)) [
    | inl e ↦ let v = close_interval-books fl plan t clock u64_max _ in rw e v
    | inr e ↦ rw e (refl, SameTotals-refl t.collector)
  ]

  pub tcp_interval-IsSpaced :
      (t : Transfer F) (clock : Clock) (stats : Option TcpStats) (cwnd : Option ℕ)
      → IsClock plan clock
      → IsSpaced plan t
      → IsSpaced plan (tcp_interval fl plan t clock stats cwnd)
  unfolding tcp_interval
  tcp_interval-IsSpaced t clock stats cwnd c h = elim (Bool-cases (is_due plan t clock)) [
    | inl e ↦ let v = close_interval-IsSpaced fl plan t clock u64_max _ e c h in rw e v
    | inr e ↦ rw e h
  ]

  -- A report leaves the streams.
  pub tcp_interval-streams :
      (t : Transfer F) (clock : Clock) (stats : Option TcpStats) (cwnd : Option ℕ)
      → (tcp_interval fl plan t clock stats cwnd).collector.per_stream ≡ t.collector.per_stream
  unfolding tcp_interval close_interval collect_interval
  tcp_interval-streams t clock stats cwnd = elim (Bool-cases (is_due plan t clock)) [
    | inl e ↦ rw e refl
    | inr e ↦ rw e refl
  ]

  pub read_received :
      (t : Transfer F) (n : ℕ) (clock : Clock) (stats : Option TcpStats)
      → received_of (tcp_interval fl plan (read_bytes fl plan t n) clock stats none)
        ≡ add64 (received_of t) n
  unfolding read_bytes
  read_received t n clock stats =
      let v = (tcp_interval-books (read_bytes fl plan t n) clock stats none).1.received in
      let w = (record_bytes_received-totals t.collector plan.stream_id n).0 in omega (arith, v, w)

  pub written_sent :
      (t : Transfer F) (n : ℕ) (clock : Clock) (stats : Option TcpStats) (cwnd : Option ℕ)
      → sent_of (tcp_interval fl plan (written_bytes fl plan t n) clock stats cwnd)
        ≡ add64 (sent_of t) n
  unfolding written_bytes
  written_sent t n clock stats cwnd =
      let v = (tcp_interval-books (written_bytes fl plan t n) clock stats cwnd).1.sent in
      let w = (record_bytes_sent-totals t.collector plan.stream_id n).0 in omega (arith, v, w)

  on_read-IsRound :
      (t : Transfer F) (r : Read) (late_at : ℕ) (clock : Clock) (stats : Option TcpStats)
      → IsRound received_of t
          (read_stops plan r late_at)
          (bytes_of r)
          (on_read fl plan t r late_at clock stats)
  unfolding on_read
  on_read-IsRound t (read_ok zero) late_at clock stats = (refl, refl)
  on_read-IsRound t (read_ok (suc n)) late_at clock stats =
      (refl, omega (arith, read_received t (suc n) clock stats))
  on_read-IsRound t read_failed late_at clock stats = (refl, refl)
  on_read-IsRound t timed_out late_at clock stats =
      elim (Bool-cases (leb plan.duration (late_at - plan.start))) [
        | inl e ↦ rw e (refl, refl)
        | inr e ↦ rw e (refl, omega arith)
      ]

  on_write-IsRound :
      (t : Transfer F) (o : Option ℕ) (clock : Clock) (stats : Option TcpStats)
      → IsRound sent_of t (write_fails o) (written_of o) (on_write fl plan t o clock stats)
  unfolding on_write
  on_write-IsRound t none clock stats = (refl, refl)
  on_write-IsRound t (some n) clock stats =
      (refl, omega (arith, written_sent t n clock stats (cwnd_kbytes stats)))

  -- The time is up or not, as both tests see it.
  pub over-cases :
      (now : ℕ)
      → ((ltb (now - plan.start) plan.duration ≡ true) × (is_over plan now ≡ false))
        ⊎ ((ltb (now - plan.start) plan.duration ≡ false) × (is_over plan now ≡ true))
  over-cases now = elim (dec_lt (now - plan.start) plan.duration) [
    | yes h ↦ inl (lt→ltb (now - plan.start) plan.duration h, ground arith)
    | no nh ↦ inr (ground arith, ground arith)
  ]

  -- A round within the time is as its rest, and one after it ends the loop.
  pub within :
      {S : Type 0} (value : S → ℕ) (s : S) (now : ℕ) (stop : Bool) (amount : ℕ) (r : Stage S)
      → IsRound value s stop amount r
      → IsRound value s
          (is_over plan now || stop)
          amount
          (if ltb (now - plan.start) plan.duration then r else ended s)
  within value s now stop amount r v = elim (over-cases now) [
    | inl (e, f) ↦ rw (e, f) v
    | inr (e, f) ↦ rw (e, f) (refl, refl)
  ]

  pub unless_cancelled :
      {S : Type 0} (value : S → ℕ) (s : S) (cancelled stop : Bool) (amount : ℕ) (r : Stage S)
      → IsRound value s stop amount r
      → IsRound value s (cancelled || stop) amount (if cancelled then ended s else r)
  unless_cancelled value s true stop amount r v = (refl, refl)
  unless_cancelled value s false stop amount r v = v

  pub server_receive-IsRound :
      (t : Transfer F) (x : ReadRound)
      → IsRound received_of t
          (server_stops_reading plan x)
          (bytes_read x)
          (server_receive_step fl plan t x)
  unfolding server_receive_step
  server_receive-IsRound t x =
      within received_of t x.now (read_stops plan x.outcome x.late_at) (bytes_read x) _
        (on_read-IsRound t x.outcome x.late_at x.clock x.stats)

  pub client_receive-IsRound :
      (t : Transfer F) (x : ReadRound)
      → IsRound received_of t
          (client_stops_reading plan x)
          (bytes_read x)
          (client_receive_step fl plan t x)
  unfolding client_receive_step
  client_receive-IsRound t x =
      within received_of t x.now (x.cancelled || read_stops plan x.outcome x.late_at) (bytes_read x)
        _
        (unless_cancelled received_of t x.cancelled (read_stops plan x.outcome x.late_at)
          (bytes_read x) _ (on_read-IsRound t x.outcome x.late_at x.clock x.stats))

  pub client_send-IsRound :
      (t : Transfer F) (x : WriteRound)
      → IsRound sent_of t
          (client_stops_writing plan x)
          (bytes_written x)
          (client_send_step fl plan t x)
  unfolding client_send_step
  client_send-IsRound t x =
      within sent_of t x.now (x.cancelled || write_fails x.outcome) (bytes_written x) _ (
        unless_cancelled sent_of t x.cancelled (write_fails x.outcome) (bytes_written x) _
          (on_write-IsRound t x.outcome x.clock x.stats))

  abbrev pub sent_by_pair : Transfer F × Pacing F → ℕ
  sent_by_pair s = sent_of s.0

  on_paced_write-IsRound :
      (target : Option ℕ) (s : Transfer F × Pacing F) (o : Option ℕ) (x : WriteRound)
      → IsRound sent_by_pair s (write_fails o) (written_of o) (on_paced_write fl plan target s o x)
  unfolding on_paced_write
  on_paced_write-IsRound target s none x = (refl, refl)
  on_paced_write-IsRound target s (some n) x =
      (refl, omega (arith, written_sent s.0 n x.clock x.stats (cwnd_kbytes x.stats)))

  pub server_send-IsRound :
      (target : Option ℕ) (s : Transfer F × Pacing F) (x : WriteRound)
      → IsRound sent_by_pair s
          (server_stops_writing plan x)
          (bytes_written x)
          (server_send_step fl plan target s x)
  unfolding server_send_step
  server_send-IsRound target s x =
      within sent_by_pair s x.now (write_fails x.outcome) (bytes_written x) _
        (on_paced_write-IsRound target s x.outcome x)
