-- ===== src/Session/Result.antt =====
-- The result that a server of src/server.rs sends at the end of a TCP test.
use rperf3_rs.Base.{
  ℕ, ◌+◌, ◌-◌, ◌%◌, ◌^◌, ◌<◌, ◌≡◌, refl, ap, ◌∙◌, inl, inr, Option, none, some, List, [], ◌∷◌, ◌++◌,
  Bool, true, false, arith,
}
use rperf3_rs.Base.Try.{◌>>=◌}
use rperf3_rs.Base.Text.{String}
use rperf3_rs.Base.Float.{Float}
use rperf3_rs.Config.{Config}
use rperf3_rs.Protocol.{Message, result, done}
use rperf3_rs.Measurements.Data.{total_bits_per_second}
use rperf3_rs.Measurements.Collector.{
  MeasurementsCollector, collect_start_time, collect_duration, get,
}
use rperf3_rs.Traffic.{
  Plan, Transfer, run_loop, run_loop-keeps_any, run_loop-brought, state_of, any_stop, brought,
  transfer_new, finish_loop-ended, end_transfer,
}
use rperf3_rs.Traffic.Pacing.{Pacing, bytes_per_sec_of}
use rperf3_rs.Traffic.Tcp.{
  server_send_step, paced_new, without_pacing, ReadRound, WriteRound, read_bytes, written_bytes,
  tcp_interval, server_receive_step, server_receive_data, server_send_data, cwnd_kbytes,
}
use rperf3_rs.Traffic.Tcp.Rounds.{
  server_stops_reading, server_stops_writing, bytes_read, bytes_written, sent_of, received_of,
  tcp_interval-books, tcp_interval-streams, record_bytes_received-totals, record_bytes_sent-totals,
  server_receive-IsRound, server_send-IsRound, sent_by_pair,
}
use rperf3_rs.Traffic.Tcp.Counts.{state_of-without_pacing}
use rperf3_rs.Traffic.Tcp.Reports.{KeptByRead, KeptByWrite, server_receive-keeps, server_send-keeps}
use rperf3_rs.Session.{Inputs, Session, replies, plan_of, end_tcp, tcp_session}
use rperf3_rs.Session.Streams.{
  IsSingle, IsSingle-same, received-IsSingle, sent-IsSingle, final_messages-IsSingle,
}

module _ (fl : Float) where
  open fl use {F, as_secs}

  -- The session ended without an error, and wrote its replies, then the result of stream 0 with these
  -- bytes sent and received, modulo 2^64, and Done.
  abbrev pub IsReported : List (Message F) → ℕ → ℕ → Option (Session F) → Type 0
  IsReported before sent received o =
      (s : Session F) × (o ≡ some s)
      × (s.is_ok ≡ true)
      × ((a : ℕ) × (b : ℕ) × (s.written
            ≡ before
              ++ (result 0 a b (as_secs (get s.collector).total_duration)
                    (total_bits_per_second fl (get s.collector)) none
                  ∷ done
                  ∷ []))
          × (a % 2 ^ 64 ≡ sent % 2 ^ 64)
          × (b % 2 ^ 64 ≡ received % 2 ^ 64))

  end_tcp-IsReported :
      (plan : Plan) (before : List (Message F)) (t : Transfer F) (ended_at : ℕ)
      → IsSingle t.collector
      → 0 < sent_of t % 2 ^ 64 + received_of t % 2 ^ 64
      → IsReported before
          (sent_of t)
          (received_of t)
          (some (end_tcp fl before true (end_transfer plan t ended_at)))
  unfolding end_tcp end_transfer collect_duration
  end_tcp-IsReported plan before t ended_at (inl (e, s, r)) h = absurd (omega (arith, s, r, h))
  end_tcp-IsReported plan before t ended_at (inr (x, e, i, s, r)) h = (
    _,
    refl,
    refl,
    (
      x.bytes_sent,
      x.bytes_received,
      ap (λ ms. before ++ ms)
          (final_messages-IsSingle fl (collect_duration t.collector (ended_at - plan.start)) x e),
      s,
      r,
    ),
  )

  -- What holds at every round of a receiving test, and of a sending one.
  abbrev pub IsReceiving : ℕ → Transfer F → Type 0
  IsReceiving sent t = IsSingle t.collector × (sent_of t ≡ sent)

  abbrev pub IsSending : ℕ → Transfer F → Type 0
  IsSending received t = IsSingle t.collector × (received_of t ≡ received)

  module _ (plan : Plan) (zero_id : plan.stream_id ≡ 0) where
    read-IsReceiving : (sent : ℕ) (x : ReadRound) → KeptByRead fl plan (IsReceiving sent) x
    unfolding read_bytes
    read-IsReceiving sent x t n (v, w) =
        let u = read_bytes fl plan t n in
        let (b, m) = tcp_interval-books fl plan u x.clock x.stats none in
        let e = tcp_interval-streams fl plan u x.clock x.stats none in
        let single : IsSingle u.collector = rw zero_id (received-IsSingle t.collector n v) in
        let totals = record_bytes_received-totals t.collector plan.stream_id n in
        (
          IsSingle-same u.collector (tcp_interval fl plan u x.clock x.stats none).collector e m.sent
              m.received single,
          m.sent ∙ totals.1 ∙ w,
        )

    written-IsSending : (received : ℕ) (x : WriteRound) → KeptByWrite fl plan (IsSending received) x
    unfolding written_bytes
    written-IsSending received x t n (v, w) =
        let u = written_bytes fl plan t n in
        let cwnd = cwnd_kbytes x.stats in
        let (b, m) = tcp_interval-books fl plan u x.clock x.stats cwnd in
        let e = tcp_interval-streams fl plan u x.clock x.stats cwnd in
        let single : IsSingle u.collector = rw zero_id (sent-IsSingle t.collector n v) in
        let totals = record_bytes_sent-totals t.collector plan.stream_id n in
        (
          IsSingle-same u.collector (tcp_interval fl plan u x.clock x.stats cwnd).collector e m.sent
              m.received single,
          m.received ∙ totals.1 ∙ w,
        )

  -- The two tests, `reads` or `writes` their rounds; a test starts with the collector of the server.
  module _ (config : Config) (client_addr : String) (duration : ℕ) (bandwidth : Option ℕ)
      (i : Inputs) (c : MeasurementsCollector F) where
    abbrev pub bytes_in_test : ℕ
    bytes_in_test = brought (server_stops_reading (plan_of config duration i)) bytes_read i.reads

    abbrev pub bytes_out_test : ℕ
    bytes_out_test =
        brought (server_stops_writing (plan_of config duration i)) bytes_written i.writes

    receiving-IsReported :
        IsSingle c
        → any_stop (server_stops_reading (plan_of config duration i)) i.reads ≡ true
        → 0 < c.atomic_bytes_sent % 2 ^ 64 + (c.atomic_bytes_received + bytes_in_test) % 2 ^ 64
        → IsReported
            (replies fl config client_addr i)
            c.atomic_bytes_sent
            (c.atomic_bytes_received + bytes_in_test)
            (tcp_session fl config client_addr duration false bandwidth i c)
    unfolding tcp_session server_receive_data transfer_new collect_start_time plan_of
    receiving-IsReported v h k =
        let plan = plan_of config duration i in
        let t = transfer_new (collect_start_time c i.started) plan.start in
        let step = server_receive_step fl plan in
        let r = run_loop step t i.reads in
        let (w, e) =
          run_loop-brought step (server_stops_reading plan) bytes_read received_of
            (server_receive-IsRound fl plan) t i.reads in
        let (single, same) =
          run_loop-keeps_any step (IsReceiving c.atomic_bytes_sent)
            (λ s x.
              server_receive-keeps fl plan (IsReceiving c.atomic_bytes_sent) s x
                (read-IsReceiving plan (refl) c.atomic_bytes_sent x))
            t i.reads (v, refl) in
        let f = finish_loop-ended plan r i.ended_at (e ∙ h) in
        let (s, ok, is_ok, (a, b, written, x, y)) =
          end_tcp-IsReported plan (replies fl config client_addr i) (state_of r) i.ended_at single
            (omega (arith, w, same, k)) in
        (
          s,
          ap (λ o. o >>= λ u. some (end_tcp fl (replies fl config client_addr i) true u)) f ∙ ok,
          is_ok,
          (a, b, written, omega (arith, x, same), omega (arith, y, w)),
        )

    sending-IsReported :
        IsSingle c
        → any_stop (server_stops_writing (plan_of config duration i)) i.writes ≡ true
        → i.flushed ≡ true
        → 0 < (c.atomic_bytes_sent + bytes_out_test) % 2 ^ 64 + c.atomic_bytes_received % 2 ^ 64
        → IsReported
            (replies fl config client_addr i)
            (c.atomic_bytes_sent + bytes_out_test)
            c.atomic_bytes_received
            (tcp_session fl config client_addr duration true bandwidth i c)
    unfolding tcp_session server_send_data transfer_new collect_start_time plan_of paced_new
    sending-IsReported v h flushed k =
        let plan = plan_of config duration i in
        let before = replies fl config client_addr i in
        let target = bytes_per_sec_of bandwidth in
        let t = paced_new fl plan (collect_start_time c i.started) in
        let step = server_send_step fl plan target in
        let r = run_loop step t i.writes in
        let (w, e) =
          run_loop-brought step (server_stops_writing plan) bytes_written (sent_by_pair fl plan)
            (server_send-IsRound fl plan target) t i.writes in
        let (single, same) =
          run_loop-keeps_any step
            (λ (s : Transfer F × Pacing F). IsSending c.atomic_bytes_received s.0)
            (λ s x.
              server_send-keeps fl plan (IsSending c.atomic_bytes_received) target s x
                (written-IsSending plan refl c.atomic_bytes_received x))
            t i.writes (v, refl) in
        let (at, b) = state_of-without_pacing fl plan r in
        let f = finish_loop-ended plan (without_pacing fl r) i.ended_at (b ∙ e ∙ h) in
        let u = end_transfer plan (state_of r).0 i.ended_at in
        let g = f ∙ ap (λ t. some (end_transfer plan t i.ended_at)) at in
        let (s, ok, is_ok, (a, b, written, x, y)) =
          end_tcp-IsReported plan before (state_of r).0 i.ended_at single
            (omega (arith, w, same, k)) in
        let finish : Option (Transfer F) → Option (Session F) = λ o.
          let pair : Option (Bool × Transfer F) = o >>= λ t. some (i.flushed, t) in
          pair >>= λ q. some (end_tcp fl before q.0 q.1) in
        (
          s,
          ap finish g ∙ ap (λ q. some (end_tcp fl before q u)) flushed ∙ ok,
          is_ok,
          (a, b, written, omega (arith, x, w), omega (arith, y, same)),
        )

    -- A TCP test of a server whose collector has no stream but number 0, with its totals: if a round
    -- ends its loop, some byte is counted by then and, when it sends, its flush succeeds, the session
    -- ends well, and writes SetupAck, Start, one result and Done. The result has the bytes of the
    -- test, in the test's direction, on top of what the collector had counted before.
    pub tcp_session-IsReported :
        IsSingle c
        → any_stop (server_stops_reading (plan_of config duration i)) i.reads ≡ true
        → any_stop (server_stops_writing (plan_of config duration i)) i.writes ≡ true
        → i.flushed ≡ true
        → 0 < c.atomic_bytes_sent % 2 ^ 64 + (c.atomic_bytes_received + bytes_in_test) % 2 ^ 64
        → 0 < (c.atomic_bytes_sent + bytes_out_test) % 2 ^ 64 + c.atomic_bytes_received % 2 ^ 64
        → IsReported
            (replies fl config client_addr i)
            c.atomic_bytes_sent
            (c.atomic_bytes_received + bytes_in_test)
            (tcp_session fl config client_addr duration false bandwidth i c)
          × IsReported
              (replies fl config client_addr i)
              (c.atomic_bytes_sent + bytes_out_test)
              c.atomic_bytes_received
              (tcp_session fl config client_addr duration true bandwidth i c)
    tcp_session-IsReported v h k flushed p q =
        (receiving-IsReported v h p, sending-IsReported v k flushed q)
