-- ===== src/Traffic/UdpReceive.antt =====
-- The receiving UDP loops: `receive_udp_data`, `run_udp_standard` and `run_udp_batched` of
-- src/server.rs and `run_udp_receive` of src/client.rs. A datagram is its bytes.
pub mod Delivery
pub mod Loops
use rperf3_rs.Base.{
  ℕ, zero, suc, ◌+◌, ◌-◌, Option, none, some, List, [], ◌∷◌, ◌++◌, Bool, true, false, ◌&&◌,
  if◌then◌else◌, ltb, leb, ◌==◌, add64, as_u64, length,
}
use rperf3_rs.Base.Float.{Float}
use rperf3_rs.UdpPacket.{UdpPacketHeader, parse_packet}
use rperf3_rs.Batch.Recv.{UdpRecvBatch, recv_batch_get}
use rperf3_rs.Measurements.Collector.{
  MeasurementsCollector, record_bytes_received, record_udp_packet_received, calculate_udp_loss, get,
}
use rperf3_rs.Reporter.{complete_msg}
use rperf3_rs.Traffic.{
  Plan, Transfer, Clock, Details, is_due, close_interval, Stage, running, ended, run_loop,
  transfer_new, finish_loop,
}

-- What `timeout(.., recv_from(..))` gives.
pub data Received : Type 0 where
  datagram : List ℕ → Received
  recv_failed timed_out : Received

-- A round with a timeout: `wall_us` is the system clock when the packet is parsed. The server has no
-- token, so its rounds are not cancelled.
pub record RecvRound : Type 0 where
  pub now : ℕ
  pub cancelled : Bool
  pub outcome : Received
  pub wall_us : ℕ
  pub clock : Clock

-- A round of `run_udp_standard`: `none` is an error.
pub record StandardRound : Type 0 where
  pub cancelled : Bool
  pub outcome : Option (List ℕ)
  pub wall_us : ℕ
  pub clock : Clock

-- A round of `run_udp_batched`: the count that the batch's `recv` gives (`none` is an error), the
-- batch after it, and the system clock at each packet.
pub record BatchRound : Type 0 where
  pub cancelled : Bool
  pub received : Option ℕ
  pub batch : UdpRecvBatch
  pub wall_us : ℕ → ℕ
  pub clock : Clock

module _ (fl : Float) where
  open fl use {F, of_u64, mul, div, lt}

  -- `if expected > 0 { (lost as f64 / expected as f64) * 100.0 } else { 0.0 }`
  abbrev pub percent_of : ℕ → ℕ → F
  percent_of lost expected =
      if ltb 0 expected then mul (div (of_u64 lost) (of_u64 expected)) (of_u64 100) else of_u64 0

  -- The UDP columns of `receive_udp_data`, from the collector's snapshot before the interval.
  unfoldable pub snapshot_details : Transfer F → Details F
  snapshot_details t =
      let stats = get t.collector in
      let lost = stats.lost_packets in
      let total = stats.total_packets in
      record {
        packets = some t.interval_packets;
        jitter_ms = if lt (of_u64 0) stats.jitter_ms then some stats.jitter_ms else none;
        lost_packets = if ltb 0 lost then some lost else none;
        lost_percent = if ltb 0 total && ltb 0 lost then some (percent_of lost total) else none;
        retransmits = none;
        cwnd = none;
      }

  -- The UDP columns of the other UDP loops; the interval that they record first changes neither.
  unfoldable pub loss_details : Transfer F → Details F
  loss_details t =
      let (lost, expected) = calculate_udp_loss t.collector in
      record {
        packets = some t.interval_packets;
        jitter_ms = some (get t.collector).jitter_ms;
        lost_packets = some lost;
        lost_percent = some (percent_of lost expected);
        retransmits = none;
        cwnd = none;
      }

  -- The report of a UDP loop, if it is due.
  unfoldable pub udp_interval : Plan → Transfer F → Clock → Details F → Transfer F
  udp_interval plan t clock details =
      if is_due plan t clock then close_interval fl plan t clock t.interval_packets details else t

  -- A datagram of `n` bytes adds to the open interval.
  abbrev pub count_packet : Transfer F → ℕ → MeasurementsCollector F → Transfer F
  count_packet t n collector = record t {
    collector = collector;
    interval_bytes = add64 t.interval_bytes n;
    interval_packets = add64 t.interval_packets 1;
  }

  -- `record_udp_packet_received` of a parsed header
  abbrev pub record_header : MeasurementsCollector F → UdpPacketHeader → ℕ → MeasurementsCollector F
  record_header c h wall_us =
      record_udp_packet_received fl c h.sequence h.timestamp_us (as_u64 wall_us)

  -- A datagram in the loops of src/server.rs, which count what parses.
  unfoldable pub server_parsed : Transfer F → ℕ → Option (UdpPacketHeader × List ℕ) → ℕ → Transfer F
  server_parsed t n none wall_us = t
  server_parsed t n (some (h, payload)) wall_us =
      count_packet t n (record_header (record_bytes_received t.collector 0 n) h wall_us)

  unfoldable pub server_datagram : Transfer F → List ℕ → ℕ → Transfer F
  server_datagram t bytes wall_us = server_parsed t (length bytes) (parse_packet bytes) wall_us

  -- A datagram in `run_udp_receive`, which counts every one.
  unfoldable pub client_parsed :
      MeasurementsCollector F → Option (UdpPacketHeader × List ℕ) → ℕ → MeasurementsCollector F
  client_parsed c none wall_us = c
  client_parsed c (some (h, payload)) wall_us = record_header c h wall_us

  unfoldable pub client_datagram : Transfer F → List ℕ → ℕ → Transfer F
  client_datagram t bytes wall_us = count_packet t (length bytes) (
      record_bytes_received (client_parsed t.collector (parse_packet bytes) wall_us) 0
        (length bytes))

  -- The body of `receive_udp_data`
  unfoldable pub on_server_recv : Plan → Transfer F → Received → ℕ → Clock → Stage (Transfer F)
  on_server_recv plan t (datagram bytes) wall_us clock =
      let u = server_datagram t bytes wall_us in
      running (udp_interval plan u clock (snapshot_details u))
  on_server_recv plan t recv_failed wall_us clock = ended t
  on_server_recv plan t timed_out wall_us clock = running t

  unfoldable pub server_udp_step : Plan → Transfer F → RecvRound → Stage (Transfer F)
  server_udp_step plan t x =
      if ltb (x.now - plan.start) plan.duration
      then on_server_recv plan t x.outcome x.wall_us x.clock
      else ended t

  -- The body of the loop of `run_udp_receive`
  unfoldable pub on_client_recv : Plan → Transfer F → Received → ℕ → Clock → Stage (Transfer F)
  on_client_recv plan t (datagram bytes) wall_us clock =
      let u = client_datagram t bytes wall_us in
      running (udp_interval plan u clock (loss_details u))
  on_client_recv plan t recv_failed wall_us clock = ended t
  on_client_recv plan t timed_out wall_us clock = running t

  unfoldable pub client_udp_step : Plan → Transfer F → RecvRound → Stage (Transfer F)
  client_udp_step plan t x =
      if ltb (x.now - plan.start) plan.duration
      then (if x.cancelled then ended t else on_client_recv plan t x.outcome x.wall_us x.clock)
      else ended t

  -- The body of the loop of `run_udp_standard`, which goes on after an error
  unfoldable pub on_standard : Plan → Transfer F → Option (List ℕ) → ℕ → Clock → Transfer F
  on_standard plan t none wall_us clock = t
  on_standard plan t (some bytes) wall_us clock =
      let u = server_datagram t bytes wall_us in udp_interval plan u clock (loss_details u)

  unfoldable pub standard_step : Plan → Transfer F → StandardRound → Stage (Transfer F)
  standard_step plan t x =
      if x.cancelled then ended t else running (on_standard plan t x.outcome x.wall_us x.clock)

  -- `if let Some((packet, addr)) = batch.get(i)`
  unfoldable pub on_packet : Transfer F → Option (List ℕ) → ℕ → Transfer F
  on_packet t none wall_us = t
  on_packet t (some packet) wall_us = server_datagram t packet wall_us

  -- `for i in 0..count`, from `i` on, by the rounds left
  unfoldable pub each_packet : Transfer F → UdpRecvBatch → (ℕ → ℕ) → ℕ → ℕ → Transfer F
  each_packet t batch wall_us i zero = t
  each_packet t batch wall_us i (suc n) =
      each_packet (on_packet t (recv_batch_get batch i) (wall_us i)) batch wall_us (suc i) n

  -- The body of the loop of `run_udp_batched`, which goes on after an error
  unfoldable pub on_batch : Plan → Transfer F → Option ℕ → BatchRound → Transfer F
  on_batch plan t none x = t
  on_batch plan t (some zero) x = t
  on_batch plan t (some (suc n)) x =
      let u = each_packet t x.batch x.wall_us 0 (suc n) in
      udp_interval plan u x.clock (loss_details u)

  unfoldable pub batched_step : Plan → Transfer F → BatchRound → Stage (Transfer F)
  batched_step plan t x = if x.cancelled then ended t else running (on_batch plan t x.received x)

  -- `receive_udp_data` once its socket is bound, and `run_udp_receive` up to its results
  unfoldable pub receive_udp_data :
      Plan → MeasurementsCollector F → List RecvRound → ℕ → Option (Transfer F)
  receive_udp_data plan c rounds ended_at =
      finish_loop plan (run_loop (server_udp_step plan) (transfer_new c plan.start) rounds) ended_at

  unfoldable pub run_udp_receive :
      Plan → MeasurementsCollector F → List RecvRound → ℕ → Option (Transfer F)
  run_udp_receive plan c rounds ended_at =
      finish_loop plan (run_loop (client_udp_step plan) (transfer_new c plan.start) rounds) ended_at

  -- The end of the loops that only a cancellation leaves, which set no duration
  unfoldable pub close_reporter : Stage (Transfer F) → Option (Transfer F)
  close_reporter (running t) = none
  close_reporter (ended t) = some (record t { messages = t.messages ++ (complete_msg ∷ []) })

  unfoldable pub run_udp_standard :
      Plan → MeasurementsCollector F → List StandardRound → Option (Transfer F)
  run_udp_standard plan c rounds =
      close_reporter (run_loop (standard_step plan) (transfer_new c plan.start) rounds)

  unfoldable pub run_udp_batched :
      Plan → MeasurementsCollector F → List BatchRound → Option (Transfer F)
  run_udp_batched plan c rounds =
      close_reporter (run_loop (batched_step plan) (transfer_new c plan.start) rounds)
