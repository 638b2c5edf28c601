-- ===== src/Traffic/Tcp/Reports.antt =====
-- The interval reports of the TCP loops of src/client.rs and src/server.rs: what they add up to, and
-- how often they come.
use rperf3_rs.Base.{
  ℕ, zero, suc, ◌+◌, ◌-◌, ◌%◌, ◌^◌, ◌≡◌, List, Option, none, some, ltb, leb, arith, All,
}
use rperf3_rs.Base.Float.{Float}
use rperf3_rs.Measurements.TcpStats.{TcpStats}
use rperf3_rs.Measurements.Collector.{MeasurementsCollector}
use rperf3_rs.Traffic.{
  Plan, Transfer, Clock, running, ended, run_loop, run_loop-keeps, run_loop-keeps_any, state_of,
  transfer_new, if_keeps,
}
use rperf3_rs.Traffic.Books.{bytes_booked, IsSpaced, IsClock}
use rperf3_rs.Traffic.Pacing.{Pacing}
use rperf3_rs.Traffic.Tcp.{
  Read, read_ok, read_failed, timed_out, ReadRound, WriteRound, tcp_interval, read_bytes,
  written_bytes, on_read, on_write, on_paced_write, cwnd_kbytes, server_receive_step,
  client_receive_step, client_send_step, server_send_step, paced_new,
}
use rperf3_rs.Traffic.Tcp.Rounds.{
  received_of, sent_of, tcp_interval-books, tcp_interval-IsSpaced, read_received, written_sent,
}

module _ (fl : Float) (plan : Plan) (P : Transfer (fl.F) → Type 0) where
  open fl use {F}

  -- What a read keeps, and what a write keeps.
  abbrev pub KeptByRead : ReadRound → Type 0
  KeptByRead x =
      (t : Transfer F) (n : ℕ)
      → P t
      → P (tcp_interval fl plan (read_bytes fl plan t n) x.clock x.stats none)

  abbrev pub KeptByWrite : WriteRound → Type 0
  KeptByWrite x =
      (t : Transfer F) (n : ℕ)
      → P t
      → P (tcp_interval fl plan (written_bytes fl plan t n) x.clock x.stats (cwnd_kbytes x.stats))

  on_read-keeps :
      (t : Transfer F) (x : ReadRound) (o : Read)
      → KeptByRead x
      → P t
      → P (state_of (on_read fl plan t o x.late_at x.clock x.stats))
  unfolding on_read
  on_read-keeps t x (read_ok zero) h p = p
  on_read-keeps t x (read_ok (suc n)) h p = h t (suc n) p
  on_read-keeps t x read_failed h p = p
  on_read-keeps t x timed_out h p =
      if_keeps P (leb plan.duration (x.late_at - plan.start)) (ended t) (running t) p p

  on_write-keeps :
      (t : Transfer F) (x : WriteRound) (o : Option ℕ)
      → KeptByWrite x
      → P t
      → P (state_of (on_write fl plan t o x.clock x.stats))
  unfolding on_write
  on_write-keeps t x none h p = p
  on_write-keeps t x (some n) h p = h t n p

  pub server_receive-keeps :
      (t : Transfer F) (x : ReadRound)
      → KeptByRead x
      → P t
      → P (state_of (server_receive_step fl plan t x))
  unfolding server_receive_step
  server_receive-keeps t x h p =
      if_keeps P (ltb (x.now - plan.start) plan.duration) _ (ended t)
        (on_read-keeps t x x.outcome h p) p

  pub client_receive-keeps :
      (t : Transfer F) (x : ReadRound)
      → KeptByRead x
      → P t
      → P (state_of (client_receive_step fl plan t x))
  unfolding client_receive_step
  client_receive-keeps t x h p =
      if_keeps P (ltb (x.now - plan.start) plan.duration) _ (ended t)
        (if_keeps P x.cancelled (ended t) _ p (on_read-keeps t x x.outcome h p)) p

  pub client_send-keeps :
      (t : Transfer F) (x : WriteRound)
      → KeptByWrite x
      → P t
      → P (state_of (client_send_step fl plan t x))
  unfolding client_send_step
  client_send-keeps t x h p =
      if_keeps P (ltb (x.now - plan.start) plan.duration) _ (ended t)
        (if_keeps P x.cancelled (ended t) _ p (on_write-keeps t x x.outcome h p)) p

  on_paced_write-keeps :
      (target : Option ℕ) (s : Transfer F × Pacing F) (x : WriteRound) (o : Option ℕ)
      → KeptByWrite x
      → P s.0
      → P (state_of (on_paced_write fl plan target s o x)).0
  unfolding on_paced_write
  on_paced_write-keeps target s x none h p = p
  on_paced_write-keeps target s x (some n) h p = h s.0 n p

  pub server_send-keeps :
      (target : Option ℕ) (s : Transfer F × Pacing F) (x : WriteRound)
      → KeptByWrite x
      → P s.0
      → P (state_of (server_send_step fl plan target s x)).0
  unfolding server_send_step
  server_send-keeps target s x h p =
      if_keeps (λ (q : Transfer F × Pacing F). P q.0) (ltb (x.now - plan.start) plan.duration) _
        (ended s) (on_paced_write-keeps target s x x.outcome h p) p

module _ (fl : Float) (plan : Plan) where
  open fl use {F}

  read_booked :
      (t : Transfer F) (n : ℕ) (clock : Clock) (stats : Option TcpStats)
      → bytes_booked (tcp_interval fl plan (read_bytes fl plan t n) clock stats none) % 2 ^ 64
        ≡ (bytes_booked t + n) % 2 ^ 64
  unfolding read_bytes
  read_booked t n clock stats =
      let v = (tcp_interval-books fl plan (read_bytes fl plan t n) clock stats none).0 in
      omega (arith, v)

  written_booked :
      (t : Transfer F) (n : ℕ) (clock : Clock) (stats : Option TcpStats) (cwnd : Option ℕ)
      → bytes_booked (tcp_interval fl plan (written_bytes fl plan t n) clock stats cwnd) % 2 ^ 64
        ≡ (bytes_booked t + n) % 2 ^ 64
  unfolding written_bytes
  written_booked t n clock stats cwnd =
      let v = (tcp_interval-books fl plan (written_bytes fl plan t n) clock stats cwnd).0 in
      omega (arith, v)

  -- The reports and the open interval account for what a total grew by, modulo 2^64.
  abbrev pub IsBooked : (Transfer F → ℕ) → ℕ → Transfer F → Type 0
  IsBooked total base t = (base + bytes_booked t) % 2 ^ 64 ≡ total t % 2 ^ 64

  -- Wherever any of the four TCP loops stands, the bytes of its reports and of the open interval are
  -- what the total of its collector grew by since it started, modulo 2^64: no byte is reported twice
  -- or left out.
  pub tcp_loops-IsBooked :
      (target : Option ℕ) (c : MeasurementsCollector F) (reads : List ReadRound)
      (writes : List WriteRound)
      → let t = transfer_new c plan.start in
        let received = IsBooked received_of c.atomic_bytes_received in
        let sent = IsBooked sent_of c.atomic_bytes_sent in
        received (state_of (run_loop (server_receive_step fl plan) t reads))
        × received (state_of (run_loop (client_receive_step fl plan) t reads))
        × sent (state_of (run_loop (client_send_step fl plan) t writes))
        × sent
            (state_of (run_loop (server_send_step fl plan target) (paced_new fl plan c) writes)).0
  unfolding transfer_new paced_new
  tcp_loops-IsBooked target c reads writes =
      let received = IsBooked received_of c.atomic_bytes_received in
      let sent = IsBooked sent_of c.atomic_bytes_sent in
      let by_read : (x : ReadRound) → KeptByRead fl plan received x = λ x t n p.
        omega
          (arith, p, read_booked t n x.clock x.stats, read_received fl plan t n x.clock x.stats) in
      let by_write : (x : WriteRound) → KeptByWrite fl plan sent x = λ x t n p. omega (
        arith,
        p,
        written_booked t n x.clock x.stats (cwnd_kbytes x.stats),
        written_sent fl plan t n x.clock x.stats (cwnd_kbytes x.stats),
      ) in
      let t = transfer_new c plan.start in
      (
        run_loop-keeps_any (server_receive_step fl plan) received
            (λ s x. server_receive-keeps fl plan received s x (by_read x)) t reads (omega arith),
        run_loop-keeps_any (client_receive_step fl plan) received
            (λ s x. client_receive-keeps fl plan received s x (by_read x)) t reads (omega arith),
        run_loop-keeps_any (client_send_step fl plan) sent
            (λ s x. client_send-keeps fl plan sent s x (by_write x)) t writes (omega arith),
        run_loop-keeps_any (server_send_step fl plan target)
            (λ (s : Transfer F × Pacing F). sent s.0)
            (λ s x. server_send-keeps fl plan sent target s x (by_write x)) (paced_new fl plan c)
            writes (omega arith),
      )

  -- Wherever any of the four TCP loops stands, if the clocks do not run backwards, the configured
  -- interval times the number of reports is at most the time from the start to the last report.
  pub tcp_loops-IsSpaced :
      (target : Option ℕ) (c : MeasurementsCollector F) (reads : List ReadRound)
      (writes : List WriteRound)
      → All (λ x. IsClock plan x.clock) reads
      → All (λ x. IsClock plan x.clock) writes
      → let t = transfer_new c plan.start in
        IsSpaced plan (state_of (run_loop (server_receive_step fl plan) t reads))
        × IsSpaced plan (state_of (run_loop (client_receive_step fl plan) t reads))
        × IsSpaced plan (state_of (run_loop (client_send_step fl plan) t writes))
        × IsSpaced plan
            (state_of (run_loop (server_send_step fl plan target) (paced_new fl plan c) writes)).0
  unfolding transfer_new paced_new read_bytes written_bytes
  tcp_loops-IsSpaced target c reads writes h k =
      let by_read : (x : ReadRound) → IsClock plan x.clock → KeptByRead fl plan (IsSpaced plan) x =
        λ x i t n p.
          tcp_interval-IsSpaced fl plan (read_bytes fl plan t n) x.clock x.stats none i p in
      let by_write : (x : WriteRound)
          → IsClock plan x.clock
          → KeptByWrite fl plan (IsSpaced plan) x =
        λ x i t n p.
          tcp_interval-IsSpaced fl plan (written_bytes fl plan t n) x.clock x.stats
            (cwnd_kbytes x.stats) i p in
      let t = transfer_new c plan.start in
      let v : IsSpaced plan t = omega arith in
      (
        run_loop-keeps (server_receive_step fl plan) (IsSpaced plan) (λ x. IsClock plan x.clock)
            (λ s x i. server_receive-keeps fl plan (IsSpaced plan) s x (by_read x i)) t reads h v,
        run_loop-keeps (client_receive_step fl plan) (IsSpaced plan) (λ x. IsClock plan x.clock)
            (λ s x i. client_receive-keeps fl plan (IsSpaced plan) s x (by_read x i)) t reads h v,
        run_loop-keeps (client_send_step fl plan) (IsSpaced plan) (λ x. IsClock plan x.clock)
            (λ s x i. client_send-keeps fl plan (IsSpaced plan) s x (by_write x i)) t writes k v,
        run_loop-keeps (server_send_step fl plan target)
            (λ (s : Transfer F × Pacing F). IsSpaced plan s.0) (λ x. IsClock plan x.clock)
            (λ s x i. server_send-keeps fl plan (IsSpaced plan) target s x (by_write x i))
            (paced_new fl plan c) writes k v,
      )
