-- ===== src/Traffic/UdpReceive/Loops.antt =====
-- The receiving UDP loops of src/server.rs and src/client.rs against the collector's own reading of a
-- sequence of packets.
use rperf3_rs.Base.{
  ℕ, zero, suc, ◌-◌, ◌≡◌, refl, sym, ◌∙◌, List, Option, none, some, Bool, true, false, ◌||◌,
  if◌then◌else◌, ltb, inl, inr,
}
use rperf3_rs.Base.Float.{Float}
use rperf3_rs.Measurements.Collector.{MeasurementsCollector, UdpPacketState}
use rperf3_rs.Measurements.Collector.Loss.{Arrival, receive_all}
use rperf3_rs.Traffic.{
  Plan, Transfer, Clock, Stage, running, ended, run_loop, run_loop-fold, state_of, is_ended,
  any_stop, before, IsChange, transfer_new,
}
use rperf3_rs.Traffic.Tcp.Rounds.{is_over, over-cases}
use rperf3_rs.Traffic.UdpReceive.{
  Received, datagram, recv_failed, timed_out, RecvRound, StandardRound, BatchRound, server_datagram,
  client_datagram, snapshot_details, loss_details, on_server_recv, server_udp_step, on_client_recv,
  client_udp_step, on_standard, standard_step, each_packet, on_batch, batched_step,
}
use rperf3_rs.Traffic.UdpReceive.Delivery.{
  received_arrivals, recv_arrivals, optional_arrivals, standard_arrivals, count_arrivals,
  batch_arrivals, all_arrivals, recv_fails, server_stops, client_stops, udp_of, udp_after_all,
  udp_state-receive_all, fold-all_arrivals, udp_interval-udp, server_datagram-udp,
  client_datagram-udp, each_packet-udp,
}

module _ (fl : Float) (plan : Plan) where
  open fl use {F}

  -- A round within the time is as its rest, and one after it ends the loop.
  within :
      (t : Transfer F) (now : ℕ) (stop : Bool) (new : UdpPacketState F) (r : Stage (Transfer F))
      → IsChange (udp_of fl) (udp_of fl t) new stop r
      → IsChange
          (udp_of fl)
          (udp_of fl t)
          new
          (is_over plan now || stop)
          (if ltb (now - plan.start) plan.duration then r else ended t)
  within t now stop new r v = elim (over-cases fl plan now) [
    | inl (e, f) ↦ rw (e, f) v
    | inr (e, f) ↦ rw (e, f) (refl, refl)
  ]

  unless_cancelled :
      (t : Transfer F) (cancelled stop : Bool) (new : UdpPacketState F) (r : Stage (Transfer F))
      → IsChange (udp_of fl) (udp_of fl t) new stop r
      → IsChange
          (udp_of fl)
          (udp_of fl t)
          new
          (cancelled || stop)
          (if cancelled then ended t else r)
  unless_cancelled t true stop new r v = (refl, refl)
  unless_cancelled t false stop new r v = v

  on_server_recv-IsChange :
      (t : Transfer F) (r : Received) (wall_us : ℕ) (clock : Clock)
      → IsChange
          (udp_of fl)
          (udp_of fl t)
          (udp_after_all fl (udp_of fl t) (received_arrivals r wall_us))
          (recv_fails r)
          (on_server_recv fl plan t r wall_us clock)
  unfolding on_server_recv
  on_server_recv-IsChange t (datagram bytes) wall_us clock =
      let u = server_datagram fl t bytes wall_us in
      (
        refl,
        udp_interval-udp fl plan u clock (snapshot_details fl u)
            ∙ server_datagram-udp fl t bytes wall_us,
      )
  on_server_recv-IsChange t recv_failed wall_us clock = (refl, refl)
  on_server_recv-IsChange t timed_out wall_us clock = (refl, refl)

  on_client_recv-IsChange :
      (t : Transfer F) (r : Received) (wall_us : ℕ) (clock : Clock)
      → IsChange
          (udp_of fl)
          (udp_of fl t)
          (udp_after_all fl (udp_of fl t) (received_arrivals r wall_us))
          (recv_fails r)
          (on_client_recv fl plan t r wall_us clock)
  unfolding on_client_recv
  on_client_recv-IsChange t (datagram bytes) wall_us clock =
      let u = client_datagram fl t bytes wall_us in
      (
        refl,
        udp_interval-udp fl plan u clock (loss_details fl u)
            ∙ client_datagram-udp fl t bytes wall_us,
      )
  on_client_recv-IsChange t recv_failed wall_us clock = (refl, refl)
  on_client_recv-IsChange t timed_out wall_us clock = (refl, refl)

  server_udp-IsChange :
      (t : Transfer F) (x : RecvRound)
      → IsChange
          (udp_of fl)
          (udp_of fl t)
          (udp_after_all fl (udp_of fl t) (recv_arrivals x))
          (server_stops plan x)
          (server_udp_step fl plan t x)
  unfolding server_udp_step
  server_udp-IsChange t x =
      within t x.now (recv_fails x.outcome) _ _
        (on_server_recv-IsChange t x.outcome x.wall_us x.clock)

  client_udp-IsChange :
      (t : Transfer F) (x : RecvRound)
      → IsChange
          (udp_of fl)
          (udp_of fl t)
          (udp_after_all fl (udp_of fl t) (recv_arrivals x))
          (client_stops plan x)
          (client_udp_step fl plan t x)
  unfolding client_udp_step
  client_udp-IsChange t x = within t x.now (x.cancelled || recv_fails x.outcome) _ _ (
      unless_cancelled t x.cancelled (recv_fails x.outcome) _ _
        (on_client_recv-IsChange t x.outcome x.wall_us x.clock))

  on_standard-udp :
      (t : Transfer F) (o : Option (List ℕ)) (wall_us : ℕ) (clock : Clock)
      → udp_of fl (on_standard fl plan t o wall_us clock)
        ≡ udp_after_all fl (udp_of fl t) (optional_arrivals o wall_us)
  unfolding on_standard
  on_standard-udp t none wall_us clock = refl
  on_standard-udp t (some bytes) wall_us clock =
      let u = server_datagram fl t bytes wall_us in
      udp_interval-udp fl plan u clock (loss_details fl u) ∙ server_datagram-udp fl t bytes wall_us

  on_batch-udp :
      (t : Transfer F) (o : Option ℕ) (x : BatchRound)
      → udp_of fl (on_batch fl plan t o x)
        ≡ udp_after_all fl (udp_of fl t) (count_arrivals o x.batch x.wall_us)
  unfolding on_batch
  on_batch-udp t none x = refl
  on_batch-udp t (some zero) x = refl
  on_batch-udp t (some (suc n)) x =
      let u = each_packet fl t x.batch x.wall_us 0 (suc n) in
      udp_interval-udp fl plan u x.clock (loss_details fl u)
      ∙ each_packet-udp fl t x.batch x.wall_us 0 (suc n)

  unless_running :
      (t : Transfer F) (new : UdpPacketState F) (u : Transfer F) (b : Bool)
      → udp_of fl u ≡ new
      → IsChange (udp_of fl) (udp_of fl t) new b (if b then ended t else running u)
  unless_running t new u true v = (refl, refl)
  unless_running t new u false v = (refl, v)

  standard-IsChange :
      (t : Transfer F) (x : StandardRound)
      → IsChange
          (udp_of fl)
          (udp_of fl t)
          (udp_after_all fl (udp_of fl t) (standard_arrivals x))
          x.cancelled
          (standard_step fl plan t x)
  unfolding standard_step
  standard-IsChange t x =
      unless_running t _ _ x.cancelled (on_standard-udp t x.outcome x.wall_us x.clock)

  batched-IsChange :
      (t : Transfer F) (x : BatchRound)
      → IsChange
          (udp_of fl)
          (udp_of fl t)
          (udp_after_all fl (udp_of fl t) (batch_arrivals x))
          x.cancelled
          (batched_step fl plan t x)
  unfolding batched_step
  batched-IsChange t x = unless_running t _ _ x.cancelled (on_batch-udp t x.received x)

  -- A loop's collector knows of the packets what it knows when they are recorded one after another,
  -- and the loop has ended exactly if a round ended it.
  abbrev pub IsDelivered :
      {X : Type 0}
      → (Transfer F → X → Stage (Transfer F))
      → (X → Bool)
      → (X → List Arrival)
      → MeasurementsCollector F
      → List X
      → Type 0
  IsDelivered step stops arrivals c rounds =
      let r = run_loop step (transfer_new c plan.start) rounds in
      ((state_of r).collector.udp_state
        ≡ (receive_all fl c (all_arrivals arrivals (before stops rounds))).udp_state)
      × (is_ended r ≡ any_stop stops rounds)

  loop-IsDelivered :
      {X : Type 0} (step : Transfer F → X → Stage (Transfer F)) (stops : X → Bool)
      (arrivals : X → List Arrival)
      → ((t : Transfer F) (x : X)
          → IsChange
              (udp_of fl)
              (udp_of fl t)
              (udp_after_all fl (udp_of fl t) (arrivals x))
              (stops x)
              (step t x))
      → (c : MeasurementsCollector F) (rounds : List X) → IsDelivered step stops arrivals c rounds
  unfolding transfer_new
  loop-IsDelivered step stops arrivals change c rounds =
      let (v, e) =
        run_loop-fold step stops (udp_of fl) (λ u x. udp_after_all fl u (arrivals x)) change
          (transfer_new c plan.start) rounds in
      (
        v
            ∙ fold-all_arrivals fl arrivals c.udp_state (before stops rounds)
            ∙ sym (udp_state-receive_all fl c (all_arrivals arrivals (before stops rounds))),
        e,
      )

  -- The four loops that receive UDP traffic implement the collector's own recording of a sequence of
  -- packets: after any rounds its UDP state is that of the packets that parsed, in order, in the rounds
  -- before the one that ends the loop. Datagrams that do not parse, timeouts, interval reports and,
  -- in the loops of a server in UDP mode, errors leave no trace in it.
  pub udp_loops-IsDelivered :
      (c : MeasurementsCollector F) (rounds : List RecvRound) (single : List StandardRound)
      (batches : List BatchRound)
      → IsDelivered (server_udp_step fl plan) (server_stops plan) recv_arrivals c rounds
        × IsDelivered (client_udp_step fl plan) (client_stops plan) recv_arrivals c rounds
        × IsDelivered (standard_step fl plan) (λ x. x.cancelled) standard_arrivals c single
        × IsDelivered (batched_step fl plan) (λ x. x.cancelled) batch_arrivals c batches
  udp_loops-IsDelivered c rounds single batches = (
    loop-IsDelivered (server_udp_step fl plan) (server_stops plan) recv_arrivals server_udp-IsChange
        c rounds,
    loop-IsDelivered (client_udp_step fl plan) (client_stops plan) recv_arrivals client_udp-IsChange
        c rounds,
    loop-IsDelivered (standard_step fl plan) (λ x. x.cancelled) standard_arrivals standard-IsChange
        c single,
    loop-IsDelivered (batched_step fl plan) (λ x. x.cancelled) batch_arrivals batched-IsChange c
        batches,
  )
