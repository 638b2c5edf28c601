-- ===== src/Traffic/Tcp/Counts.antt =====
-- What the TCP loops of src/client.rs and src/server.rs count, against what the socket gave them.
use rperf3_rs.Base.{
  ℕ, ◌+◌, ◌-◌, ◌%◌, ◌^◌, ◌≡◌, refl, ap, ◌∙◌, List, Option, some, Bool, true, arith,
}
use rperf3_rs.Base.Try.{◌>>=◌}
use rperf3_rs.Base.Float.{Float}
use rperf3_rs.Measurements.Data.{set_duration}
use rperf3_rs.Measurements.Collector.{MeasurementsCollector, collect_duration, get}
use rperf3_rs.Traffic.{
  Plan, Transfer, Stage, running, ended, run_loop, run_loop-brought, IsRound, state_of, is_ended,
  brought, any_stop, transfer_new, finish_loop, finish_loop-ended, end_transfer,
}
use rperf3_rs.Traffic.Pacing.{Pacing, bytes_per_sec_of}
use rperf3_rs.Traffic.Tcp.{
  ReadRound, WriteRound, server_receive_step, client_receive_step, client_send_step,
  server_send_step, server_receive_data, client_receive_data, client_send_data, server_send_data,
  without_pacing, paced_new,
}
use rperf3_rs.Traffic.Tcp.Rounds.{
  server_stops_reading, client_stops_reading, bytes_read, server_stops_writing,
  client_stops_writing, bytes_written, received_of, sent_of, sent_by_pair, server_receive-IsRound,
  client_receive-IsRound, client_send-IsRound, server_send-IsRound,
}

module _ (fl : Float) (plan : Plan) where
  open fl use {F}

  pub get-totals :
      (t : Transfer F) (ended_at : ℕ)
      → let m = get (end_transfer plan t ended_at).collector in
        (m.total_bytes_received ≡ received_of t)
        × (m.total_bytes_sent ≡ sent_of t)
        × (m.total_duration ≡ ended_at - plan.start)
  unfolding get end_transfer collect_duration set_duration
  get-totals t ended_at = ground arith

  abbrev pub received_in : MeasurementsCollector F → ℕ
  received_in c = (get c).total_bytes_received

  abbrev pub sent_in : MeasurementsCollector F → ℕ
  sent_in c = (get c).total_bytes_sent

  -- The transfer is what a loop returns, and its snapshot has a total, modulo 2^64.
  abbrev pub IsCounted :
      (MeasurementsCollector F → ℕ) → ℕ → Option (Transfer F) → Transfer F → Type 0
  IsCounted total expected result t =
      (result ≡ some t) × (total t.collector % 2 ^ 64 ≡ expected % 2 ^ 64)

  pub receive_loop-IsCounted :
      (step : Transfer F → ReadRound → Stage (Transfer F)) (stops : ReadRound → Bool)
      → ((t : Transfer F) (x : ReadRound)
          → IsRound received_of t (stops x) (bytes_read x) (step t x))
      → (c : MeasurementsCollector F) (rounds : List ReadRound) (ended_at : ℕ)
      → any_stop stops rounds ≡ true
      → let r = run_loop step (transfer_new c plan.start) rounds in
        IsCounted received_in
          (c.atomic_bytes_received + brought stops bytes_read rounds)
          (finish_loop plan r ended_at)
          (end_transfer plan (state_of r) ended_at)
  unfolding transfer_new
  receive_loop-IsCounted step stops round c rounds ended_at h =
      let t = transfer_new c plan.start in
      let r = run_loop step t rounds in
      let (v, e) = run_loop-brought step stops bytes_read received_of round t rounds in
      (
        finish_loop-ended plan r ended_at (e ∙ h),
        omega (arith, v, (get-totals (state_of r) ended_at).0),
      )

  -- A receiving loop that some round ends returns, on the server (`xs`) and on the client (`ys`), and
  -- the snapshot of its collector has received what it had before and what the rounds before the one
  -- that ends it read.
  pub receive_data-get :
      (c : MeasurementsCollector F) (xs ys : List ReadRound) (ended_at : ℕ)
      → any_stop (server_stops_reading plan) xs ≡ true
      → any_stop (client_stops_reading plan) ys ≡ true
      → let server = c.atomic_bytes_received + brought (server_stops_reading plan) bytes_read xs in
        let client = c.atomic_bytes_received + brought (client_stops_reading plan) bytes_read ys in
        ((t : Transfer F) × IsCounted received_in server
            (server_receive_data fl plan c xs ended_at)
            t)
        × ((t : Transfer F) × IsCounted received_in client
              (client_receive_data fl plan c ys ended_at)
              t)
  unfolding server_receive_data client_receive_data
  receive_data-get c xs ys ended_at h k = (
    (
      _,
      receive_loop-IsCounted (server_receive_step fl plan) (server_stops_reading plan)
          (server_receive-IsRound fl plan) c xs ended_at h,
    ),
    (
      _,
      receive_loop-IsCounted (client_receive_step fl plan) (client_stops_reading plan)
          (client_receive-IsRound fl plan) c ys ended_at k,
    ),
  )

  pub state_of-without_pacing :
      (r : Stage (Transfer F × Pacing F))
      → (state_of (without_pacing fl r) ≡ (state_of r).0)
        × (is_ended (without_pacing fl r) ≡ is_ended r)
  unfolding without_pacing
  state_of-without_pacing (running s) = (refl, refl)
  state_of-without_pacing (ended s) = (refl, refl)

  -- A sending loop that some round ends returns, on the server (`xs`) and on the client (`ys`), with
  -- whether its flush succeeded, and the snapshot of its collector has sent what it had before and
  -- what the rounds before the one that ends it wrote, whatever the bandwidth limit.
  pub send_data-get :
      (bandwidth : Option ℕ) (c : MeasurementsCollector F) (xs ys : List WriteRound) (ended_at : ℕ)
      (flushed : Bool)
      → any_stop (server_stops_writing plan) xs ≡ true
      → any_stop (client_stops_writing plan) ys ≡ true
      → let server = c.atomic_bytes_sent + brought (server_stops_writing plan) bytes_written xs in
        let client = c.atomic_bytes_sent + brought (client_stops_writing plan) bytes_written ys in
        ((t : Transfer F) × (server_send_data fl plan bandwidth c xs ended_at flushed
            ≡ some (flushed, t))
          × (sent_in t.collector % 2 ^ 64 ≡ server % 2 ^ 64))
        × ((t : Transfer F) × (client_send_data fl plan c ys ended_at flushed ≡ some (flushed, t))
            × (sent_in t.collector % 2 ^ 64 ≡ client % 2 ^ 64))
  unfolding server_send_data client_send_data transfer_new paced_new
  send_data-get bandwidth c xs ys ended_at flushed h k =
      let target = bytes_per_sec_of bandwidth in
      let r = run_loop (server_send_step fl plan target) (paced_new fl plan c) xs in
      let q = run_loop (client_send_step fl plan) (transfer_new c plan.start) ys in
      let (v, e) =
        run_loop-brought (server_send_step fl plan target) (server_stops_writing plan) bytes_written
          (sent_by_pair fl plan) (server_send-IsRound fl plan target) (paced_new fl plan c) xs in
      let (w, f) =
        run_loop-brought (client_send_step fl plan) (client_stops_writing plan) bytes_written
          sent_of (client_send-IsRound fl plan) (transfer_new c plan.start) ys in
      let (s, b) = state_of-without_pacing r in
      let server = finish_loop-ended plan (without_pacing fl r) ended_at (b ∙ e ∙ h) in
      let client = finish_loop-ended plan q ended_at (f ∙ k) in
      let total = (get-totals (state_of (without_pacing fl r)) ended_at).1 in
      (
        (_, ap (λ o. o >>= λ t. some (flushed, t)) server, omega (arith, v, total, ap sent_of s)),
        (
          _,
          ap (λ o. o >>= λ t. some (flushed, t)) client,
          omega (arith, w, (get-totals (state_of q) ended_at).1),
        ),
      )
