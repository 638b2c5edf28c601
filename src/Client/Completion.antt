-- ===== src/Client/Completion.antt =====
-- A TCP test of src/client.rs whose handshake a server answers: how it ends.
use rperf3_rs.Base.{
  ℕ, ◌+◌, ◌-◌, ◌%◌, ◌^◌, ◌≡◌, refl, ap, ◌∙◌, Option, none, some, Bool, true, false, if◌then◌else◌,
  ◌||◌, arith,
}
use rperf3_rs.Base.Try.{◌>>=◌}
use rperf3_rs.Base.Text.{String}
use rperf3_rs.Base.Float.{Float}
use rperf3_rs.Error.{ok}
use rperf3_rs.Protocol
use rperf3_rs.Protocol.{Message, setup_ack}
use rperf3_rs.Measurements.Collector.{collect_start_time, get}
use rperf3_rs.Traffic.{
  Plan, Transfer, run_loop, run_loop-brought, run_loop-keeps_any, state_of, brought, any_stop,
  transfer_new, finish_loop-ended, end_transfer,
}
use rperf3_rs.Traffic.Tcp.{
  ReadRound, WriteRound, read_bytes, written_bytes, client_receive_step, client_send_step,
  client_receive_data, client_send_data, cwnd_kbytes,
}
use rperf3_rs.Traffic.Tcp.Rounds.{
  client_stops_reading, bytes_read, client_stops_writing, bytes_written, received_of, sent_of,
  client_receive-IsRound, client_send-IsRound, record_bytes_received-totals,
  record_bytes_sent-totals, tcp_interval-books,
}
use rperf3_rs.Traffic.Tcp.Counts.{get-totals}
use rperf3_rs.Traffic.Tcp.Reports.{KeptByRead, KeptByWrite, client_receive-keeps, client_send-keeps}
use rperf3_rs.Client.{
  Client, Inputs, Run, ongoing, client_plan, check_ack, check_start, tcp_completed, complete,
  end_tcp, tcp_test,
}
use rperf3_rs.Client.Sessions.{after_handshake, run_tcp}

module _ (fl : Float) (client : Client (fl.F)) (i : Inputs (fl.F)) where
  open fl use {F}

  abbrev test_plan : Plan
  test_plan = client_plan client client.stream_id i

  read-keeps : (sent : ℕ) (x : ReadRound) → KeptByRead fl test_plan (λ t. sent_of t ≡ sent) x
  unfolding read_bytes
  read-keeps sent x t n w =
      let u = read_bytes fl test_plan t n in
      (tcp_interval-books fl test_plan u x.clock x.stats none).1.sent
      ∙ (record_bytes_received-totals t.collector test_plan.stream_id n).1
      ∙ w

  write-keeps :
      (received : ℕ) (x : WriteRound) → KeptByWrite fl test_plan (λ t. received_of t ≡ received) x
  unfolding written_bytes
  write-keeps received x t n w =
      let u = written_bytes fl test_plan t n in
      (tcp_interval-books fl test_plan u x.clock x.stats (cwnd_kbytes x.stats)).1.received
      ∙ (record_bytes_sent-totals t.collector test_plan.stream_id n).1
      ∙ w

  -- The test returns well, and its last event has as many bytes and the time from its start.
  abbrev pub IsComplete : ℕ → Run F → Type 0
  IsComplete total r =
      (t : Transfer F) × (r ≡ complete fl client t (tcp_completed fl (get t.collector)))
      × ((tcp_completed fl (get t.collector)).total_bytes ≡ total % 2 ^ 64)
      × ((tcp_completed fl (get t.collector)).duration ≡ i.ended_at - i.start)

  abbrev pub bytes_before : ℕ
  bytes_before = client.measurements.atomic_bytes_sent + client.measurements.atomic_bytes_received

  abbrev pub moved : Bool → ℕ
  moved true = brought (client_stops_reading test_plan) bytes_read i.reads
  moved false = brought (client_stops_writing test_plan) bytes_written i.writes

  abbrev pub is_left : Bool → Bool
  is_left true = any_stop (client_stops_reading test_plan) i.reads
  is_left false = any_stop (client_stops_writing test_plan) i.writes

  test-IsComplete :
      (reverse : Bool)
      → is_left reverse ≡ true
      → (reverse || i.flushed) ≡ true
      → let c = collect_start_time client.measurements i.started in
        IsComplete (bytes_before + moved reverse) (
          if reverse
          then elim (client_receive_data fl test_plan c i.reads i.ended_at) [
            | none ↦ ongoing
            | some t ↦ end_tcp fl client true t
          ]
          else elim (client_send_data fl test_plan c i.writes i.ended_at i.flushed) [
            | none ↦ ongoing
            | some (flushed, t) ↦ end_tcp fl client flushed t
          ])
  unfolding client_receive_data client_send_data transfer_new collect_start_time tcp_completed
      end_tcp client_plan
  test-IsComplete true h flushed =
      let t = transfer_new (collect_start_time client.measurements i.started) i.start in
      let step = client_receive_step fl test_plan in
      let r = run_loop step t i.reads in
      let (w, e) =
        run_loop-brought step (client_stops_reading test_plan) bytes_read received_of
          (client_receive-IsRound fl test_plan) t i.reads in
      let sent = client.measurements.atomic_bytes_sent in
      let same : sent_of (state_of r) ≡ sent =
        run_loop-keeps_any step (λ t. sent_of t ≡ sent)
          (λ s x. client_receive-keeps fl test_plan (λ t. sent_of t ≡ sent) s x (read-keeps sent x))
          t i.reads refl in
      let f = finish_loop-ended test_plan r i.ended_at (e ∙ h) in
      let (a, b, d) = get-totals fl test_plan (state_of r) i.ended_at in
      (
        end_transfer test_plan (state_of r) i.ended_at,
        ap (λ o. elim o [ none ↦ ongoing | some t ↦ end_tcp fl client true t ]) f,
        omega (arith, w, same, a, b),
        d,
      )
  test-IsComplete false h flushed =
      let t = transfer_new (collect_start_time client.measurements i.started) i.start in
      let step = client_send_step fl test_plan in
      let r = run_loop step t i.writes in
      let (w, e) =
        run_loop-brought step (client_stops_writing test_plan) bytes_written sent_of
          (client_send-IsRound fl test_plan) t i.writes in
      let received = client.measurements.atomic_bytes_received in
      let same : received_of (state_of r) ≡ received =
        run_loop-keeps_any step (λ t. received_of t ≡ received)
          (λ s x.
            client_send-keeps fl test_plan (λ t. received_of t ≡ received) s x
              (write-keeps received x))
          t i.writes refl in
      let f = finish_loop-ended test_plan r i.ended_at (e ∙ h) in
      let (a, b, d) = get-totals fl test_plan (state_of r) i.ended_at in
      let u = end_transfer test_plan (state_of r) i.ended_at in
      let finish : Option (Transfer F) → Run F = λ o.
        let pair : Option (Bool × Transfer F) = o >>= λ t. some (i.flushed, t) in
        elim pair [ none ↦ ongoing | some (flushed, t) ↦ end_tcp fl client flushed t ] in
      (u, ap finish f ∙ ap (λ q. end_tcp fl client q u) flushed, omega (arith, w, same, a, b), d)

  after_handshake-eq :
      (port : ℕ) (cookie : String) (now_secs : ℕ) (test : Run F)
      → i.connected ≡ true
      → i.written ≡ true
      → i.ack ≡ ok (setup_ack port cookie)
      → i.start_signal ≡ ok (Protocol.start now_secs)
      → after_handshake fl client i test ≡ test
  unfolding after_handshake check_ack check_start setup_ack Protocol.start
  after_handshake-eq port cookie now_secs test c w a s = rw (c, w, a, s) refl

  -- A TCP test of a client that connects, sends its Setup and reads a server's replies returns
  -- well if a round ends its loop and, when it sends, its flush succeeds. Its last event has the bytes of
  -- the test on top of what the collector had counted before, modulo 2^64, and the time that it took. The
  -- printing of the results is left out.
  pub run_tcp-IsComplete :
      (port : ℕ) (cookie : String) (now_secs : ℕ)
      → i.connected ≡ true
      → i.written ≡ true
      → i.ack ≡ ok (setup_ack port cookie)
      → i.start_signal ≡ ok (Protocol.start now_secs)
      → is_left client.config.reverse ≡ true
      → (client.config.reverse || i.flushed) ≡ true
      → IsComplete (bytes_before + moved client.config.reverse) (run_tcp fl client i)
  unfolding run_tcp tcp_test
  run_tcp-IsComplete port cookie now_secs c w a s h flushed =
      let (t, e, total, time) = test-IsComplete client.config.reverse h flushed in
      (t, after_handshake-eq port cookie now_secs _ c w a s ∙ e, total, time)
