-- ===== src/Traffic/Books.antt =====
-- What the reports of a loop of src/client.rs or src/server.rs add up to: the bytes and packets of the
-- closed intervals and of the open one.
use rperf3_rs.Base.{
  ℕ, zero, suc, ◌+◌, ◌-◌, ◌*◌, ◌≤◌, ◌≡◌, refl, ap, List, [], ◌∷◌, ◌++◌, Option, none, some, arith,
  true,
}
use rperf3_rs.Base.Float.{Float}
use rperf3_rs.Measurements.Collector.{
  MeasurementsCollector, collect_interval, get_or_create_stream, create_unless_found, find_stream,
}
use rperf3_rs.Reporter.{IntervalMessage, IntervalReport, report_msg, complete_msg}
use rperf3_rs.Traffic.{Plan, Transfer, Clock, Details, is_due, close_interval}

-- The bytes and the packets of the reports, and how many reports there are.
abbrev pub bytes_in : {F : Type 0} → List (IntervalMessage F) → ℕ
bytes_in [] = 0
bytes_in (report_msg r ∷ ms) = r.bytes + bytes_in ms
bytes_in (complete_msg ∷ ms) = bytes_in ms

abbrev pub packets_or_zero : Option ℕ → ℕ
packets_or_zero none = 0
packets_or_zero (some n) = n

abbrev pub packets_in : {F : Type 0} → List (IntervalMessage F) → ℕ
packets_in [] = 0
packets_in (report_msg r ∷ ms) = packets_or_zero r.packets + packets_in ms
packets_in (complete_msg ∷ ms) = packets_in ms

abbrev pub reports_in : {F : Type 0} → List (IntervalMessage F) → ℕ
reports_in [] = 0
reports_in (report_msg r ∷ ms) = 1 + reports_in ms
reports_in (complete_msg ∷ ms) = reports_in ms

-- The bytes of the closed intervals and the open one, and the packets.
abbrev pub bytes_booked : {F : Type 0} → Transfer F → ℕ
bytes_booked t = bytes_in t.messages + t.interval_bytes

abbrev pub packets_booked : {F : Type 0} → Transfer F → ℕ
packets_booked t = packets_in t.messages + t.interval_packets

-- As many intervals as were reported fit between the start and the last report.
abbrev pub IsSpaced : {F : Type 0} → Plan → Transfer F → Type 0
IsSpaced plan t =
    (plan.start ≤ t.last_interval)
    × (reports_in t.messages * plan.interval ≤ t.last_interval - plan.start)

-- Clocks do not run backwards.
abbrev pub IsClock : Plan → Clock → Type 0
IsClock plan c = (plan.start ≤ c.check) × (c.check ≤ c.reset_at)

module _ {F : Type 0} where
  bytes_in-append :
      (ms : List (IntervalMessage F)) (r : IntervalReport F)
      → bytes_in (ms ++ (report_msg r ∷ [])) ≡ bytes_in ms + r.bytes
  bytes_in-append [] r = omega arith
  bytes_in-append (report_msg q ∷ ms) r = omega (arith, bytes_in-append ms r)
  bytes_in-append (complete_msg ∷ ms) r = bytes_in-append ms r

  packets_in-append :
      (ms : List (IntervalMessage F)) (r : IntervalReport F)
      → packets_in (ms ++ (report_msg r ∷ [])) ≡ packets_in ms + packets_or_zero r.packets
  packets_in-append [] r = omega arith
  packets_in-append (report_msg q ∷ ms) r = omega (arith, packets_in-append ms r)
  packets_in-append (complete_msg ∷ ms) r = packets_in-append ms r

  reports_in-append :
      (ms : List (IntervalMessage F)) (r : IntervalReport F)
      → reports_in (ms ++ (report_msg r ∷ [])) ≡ reports_in ms + 1
  reports_in-append [] r = omega arith
  reports_in-append (report_msg q ∷ ms) r = omega (arith, reports_in-append ms r)
  reports_in-append (complete_msg ∷ ms) r = reports_in-append ms r

  -- The totals of a collector.
  pub record SameTotals (c d : MeasurementsCollector F) : Type 0 where
    pub sent : d.atomic_bytes_sent ≡ c.atomic_bytes_sent
    pub received : d.atomic_bytes_received ≡ c.atomic_bytes_received
    pub packets : d.atomic_packets ≡ c.atomic_packets
    pub udp : d.udp_state ≡ c.udp_state

  pub SameTotals-refl : (c : MeasurementsCollector F) → SameTotals c c
  SameTotals-refl c = record { sent = refl; received = refl; packets = refl; udp = refl }

  create_unless_found-SameTotals :
      (c : MeasurementsCollector F) (stream_id : ℕ) (o : Option ℕ)
      → SameTotals c (create_unless_found c stream_id o).1
  unfolding create_unless_found
  create_unless_found-SameTotals c stream_id none = record {
    sent = refl;
    received = refl;
    packets = refl;
    udp = refl;
  }
  create_unless_found-SameTotals c stream_id (some i) = SameTotals-refl c

  pub get_or_create_stream-SameTotals :
      (c : MeasurementsCollector F) (stream_id : ℕ)
      → SameTotals c (get_or_create_stream c stream_id).1
  unfolding get_or_create_stream
  get_or_create_stream-SameTotals c stream_id =
      create_unless_found-SameTotals c stream_id (find_stream c.per_stream stream_id)

spaced_step :
    (n i start last next : ℕ)
    → start ≤ last
    → start ≤ next
    → i ≤ next - last
    → n * i ≤ last - start
    → (n + 1) * i ≤ next - start
spaced_step n zero start last next a b d h = omega arith
spaced_step n (suc i) start last next a b d h = omega (arith, a, d, h)

module _ (fl : Float) (plan : Plan) (t : Transfer (fl.F)) (clock : Clock) (packets : ℕ)
    (details : Details (fl.F)) where
  abbrev pub closed : Transfer (fl.F)
  closed = close_interval fl plan t clock packets details

  -- A report moves the bytes of the open interval to the closed ones, and leaves the totals.
  pub close_interval-books :
      (bytes_booked closed ≡ bytes_booked t) × SameTotals t.collector closed.collector
  unfolding close_interval collect_interval
  close_interval-books = (
    omega (arith, bytes_in-append t.messages _),
    record { sent = refl; received = refl; packets = refl; udp = refl },
  )

  -- The same for the packets, where the report has them.
  pub close_interval-packets :
      details.packets ≡ some t.interval_packets → packets_booked closed ≡ packets_booked t
  unfolding close_interval
  close_interval-packets e =
      let f : packets_or_zero details.packets ≡ t.interval_packets = ap packets_or_zero e in
      omega (arith, packets_in-append t.messages _, f)

  -- A report that is due is as far from the last as the interval is long.
  pub close_interval-IsSpaced :
      is_due plan t clock ≡ true → IsClock plan clock → IsSpaced plan t → IsSpaced plan closed
  unfolding close_interval is_due
  close_interval-IsSpaced due c h =
      let d : plan.interval ≤ clock.check - t.last_interval = ground arith in
      let e : reports_in closed.messages ≡ reports_in t.messages + 1 =
        reports_in-append t.messages _ in
      rw e (
        omega (arith, c),
        spaced_step (reports_in t.messages) plan.interval plan.start t.last_interval clock.reset_at
            h.0 (omega (arith, c)) (omega (arith, d, c)) h.1,
      )
