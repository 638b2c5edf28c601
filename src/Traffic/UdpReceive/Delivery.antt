-- ===== src/Traffic/UdpReceive/Delivery.antt =====
-- What the receiving UDP loops of src/server.rs and src/client.rs tell the collector of the packets
-- that arrive.
use rperf3_rs.Base.{
  ℕ, zero, suc, ◌≡◌, refl, ap, sym, ◌∙◌, List, [], ◌∷◌, ◌++◌, Option, none, some, Bool, true, false,
  ◌||◌, if◌then◌else◌, ◌==◌, as_u64, length, u64_max, Bool-cases, inl, inr,
}
use rperf3_rs.Base.Float.{Float}
use rperf3_rs.UdpPacket.{UdpPacketHeader, parse_packet}
use rperf3_rs.Batch.Recv.{UdpRecvBatch, recv_batch_get}
use rperf3_rs.Measurements.Collector.{
  MeasurementsCollector, UdpPacketState, collector_new, record_udp_packet_received, receive_packet,
}
use rperf3_rs.Measurements.Collector.Loss.{Arrival, receive_all}
use rperf3_rs.Traffic.{Plan, Transfer, Clock, Details, is_due, fold}
use rperf3_rs.Traffic.Books.{close_interval-books}
use rperf3_rs.Traffic.Tcp.Rounds.{is_over, record_bytes_received-totals}
use rperf3_rs.Traffic.UdpReceive.{
  Received, datagram, recv_failed, timed_out, RecvRound, StandardRound, BatchRound, record_header,
  udp_interval, server_datagram, client_datagram, each_packet, server_parsed, client_parsed,
  on_packet,
}

-- The packets of datagrams, as they arrive.
abbrev pub header_arrival : Option (UdpPacketHeader × List ℕ) → ℕ → List Arrival
header_arrival none wall_us = []
header_arrival (some (h, payload)) wall_us =
    record { sequence = h.sequence; send = h.timestamp_us; recv = as_u64 wall_us } ∷ []

abbrev pub arrivals_in : List ℕ → ℕ → List Arrival
arrivals_in bytes wall_us = header_arrival (parse_packet bytes) wall_us

abbrev pub received_arrivals : Received → ℕ → List Arrival
received_arrivals (datagram bytes) wall_us = arrivals_in bytes wall_us
received_arrivals recv_failed wall_us = []
received_arrivals timed_out wall_us = []

abbrev pub recv_arrivals : RecvRound → List Arrival
recv_arrivals x = received_arrivals x.outcome x.wall_us

abbrev pub optional_arrivals : Option (List ℕ) → ℕ → List Arrival
optional_arrivals none wall_us = []
optional_arrivals (some bytes) wall_us = arrivals_in bytes wall_us

abbrev pub standard_arrivals : StandardRound → List Arrival
standard_arrivals x = optional_arrivals x.outcome x.wall_us

abbrev pub packet_arrivals : UdpRecvBatch → (ℕ → ℕ) → ℕ → ℕ → List Arrival
packet_arrivals batch wall_us i zero = []
packet_arrivals batch wall_us i (suc n) =
    optional_arrivals (recv_batch_get batch i) (wall_us i)
    ++ packet_arrivals batch wall_us (suc i) n

abbrev pub count_arrivals : Option ℕ → UdpRecvBatch → (ℕ → ℕ) → List Arrival
count_arrivals none batch wall_us = []
count_arrivals (some n) batch wall_us = packet_arrivals batch wall_us 0 n

abbrev pub batch_arrivals : BatchRound → List Arrival
batch_arrivals x = count_arrivals x.received x.batch x.wall_us

abbrev pub all_arrivals : {X : Type 0} → (X → List Arrival) → List X → List Arrival
all_arrivals f [] = []
all_arrivals f (x ∷ xs) = f x ++ all_arrivals f xs

-- The rounds that end the loops.
abbrev pub recv_fails : Received → Bool
recv_fails (datagram bytes) = false
recv_fails recv_failed = true
recv_fails timed_out = false

abbrev pub server_stops : Plan → RecvRound → Bool
server_stops plan x = is_over plan x.now || recv_fails x.outcome

abbrev pub client_stops : Plan → RecvRound → Bool
client_stops plan x = is_over plan x.now || (x.cancelled || recv_fails x.outcome)

module _ (fl : Float) where
  open fl use {F}

  abbrev pub udp_of : Transfer F → UdpPacketState F
  udp_of t = t.collector.udp_state

  -- What packets do to the state of the UDP statistics, which nothing else in the collector enters.
  abbrev pub udp_after : UdpPacketState F → Arrival → UdpPacketState F
  udp_after u a =
      let c = record (collector_new fl) { udp_state = u } in
      let d = receive_packet fl c a.sequence a.send a.recv in
      if a.sequence == u64_max then u else d.udp_state

  abbrev pub udp_after_all : UdpPacketState F → List Arrival → UdpPacketState F
  udp_after_all u arrived = fold udp_after u arrived

  udp_state-record :
      (c : MeasurementsCollector F) (a : Arrival)
      → (record_udp_packet_received fl c a.sequence a.send a.recv).udp_state
        ≡ udp_after c.udp_state a
  unfolding record_udp_packet_received receive_packet
  udp_state-record c a = elim (Bool-cases (a.sequence == u64_max)) [
    | inl e ↦ rw e refl
    | inr e ↦ rw e refl
  ]

  pub udp_state-receive_all :
      (c : MeasurementsCollector F) (arrived : List Arrival)
      → (receive_all fl c arrived).udp_state ≡ udp_after_all c.udp_state arrived
  unfolding receive_all
  udp_state-receive_all c [] = refl
  udp_state-receive_all c (a ∷ arrived) =
      udp_state-receive_all (record_udp_packet_received fl c a.sequence a.send a.recv) arrived
      ∙ ap (λ u. udp_after_all u arrived) (udp_state-record c a)

  udp_after_all-append :
      (u : UdpPacketState F) (arrived bs : List Arrival)
      → udp_after_all u (arrived ++ bs) ≡ udp_after_all (udp_after_all u arrived) bs
  udp_after_all-append u [] bs = refl
  udp_after_all-append u (a ∷ arrived) bs = udp_after_all-append (udp_after u a) arrived bs

  pub fold-all_arrivals :
      {X : Type 0} (f : X → List Arrival) (u : UdpPacketState F) (xs : List X)
      → fold (λ u x. udp_after_all u (f x)) u xs ≡ udp_after_all u (all_arrivals f xs)
  fold-all_arrivals f u [] = refl
  fold-all_arrivals f u (x ∷ xs) =
      fold-all_arrivals f (udp_after_all u (f x)) xs
      ∙ sym (udp_after_all-append u (f x) (all_arrivals f xs))

  pub udp_interval-udp :
      (plan : Plan) (t : Transfer F) (clock : Clock) (details : Details F)
      → udp_of (udp_interval fl plan t clock details) ≡ udp_of t
  unfolding udp_interval
  udp_interval-udp plan t clock details = elim (Bool-cases (is_due plan t clock)) [
    | inl e ↦
        let v = (close_interval-books fl plan t clock t.interval_packets details).1.udp in rw e v
    | inr e ↦ rw e refl
  ]

  header_arrival-udp :
      (c : MeasurementsCollector F) (u : UdpPacketState F) (h : UdpPacketHeader) (wall_us : ℕ)
      → c.udp_state ≡ u
      → (record_header fl c h wall_us).udp_state
        ≡ udp_after u
            (record { sequence = h.sequence; send = h.timestamp_us; recv = as_u64 wall_us })
  header_arrival-udp c u h wall_us e =
      let a : Arrival = record {
        sequence = h.sequence;
        send = h.timestamp_us;
        recv = as_u64 wall_us;
      } in
      udp_state-record c a ∙ ap (λ u. udp_after u a) e

  server_parsed-udp :
      (t : Transfer F) (n : ℕ) (o : Option (UdpPacketHeader × List ℕ)) (wall_us : ℕ)
      → udp_of (server_parsed fl t n o wall_us)
        ≡ udp_after_all (udp_of t) (header_arrival o wall_us)
  unfolding server_parsed
  server_parsed-udp t n none wall_us = refl
  server_parsed-udp t n (some (h, payload)) wall_us =
      header_arrival-udp _ (udp_of t) h wall_us (record_bytes_received-totals t.collector 0 n).3

  client_parsed-udp :
      (c : MeasurementsCollector F) (o : Option (UdpPacketHeader × List ℕ)) (wall_us : ℕ)
      → (client_parsed fl c o wall_us).udp_state
        ≡ udp_after_all c.udp_state (header_arrival o wall_us)
  unfolding client_parsed
  client_parsed-udp c none wall_us = refl
  client_parsed-udp c (some (h, payload)) wall_us = header_arrival-udp c c.udp_state h wall_us refl

  pub server_datagram-udp :
      (t : Transfer F) (bytes : List ℕ) (wall_us : ℕ)
      → udp_of (server_datagram fl t bytes wall_us)
        ≡ udp_after_all (udp_of t) (arrivals_in bytes wall_us)
  unfolding server_datagram
  server_datagram-udp t bytes wall_us =
      server_parsed-udp t (length bytes) (parse_packet bytes) wall_us

  pub client_datagram-udp :
      (t : Transfer F) (bytes : List ℕ) (wall_us : ℕ)
      → udp_of (client_datagram fl t bytes wall_us)
        ≡ udp_after_all (udp_of t) (arrivals_in bytes wall_us)
  unfolding client_datagram
  client_datagram-udp t bytes wall_us =
      (record_bytes_received-totals (client_parsed fl t.collector (parse_packet bytes) wall_us) 0
        (length bytes)).3
      ∙ client_parsed-udp t.collector (parse_packet bytes) wall_us

  on_packet-udp :
      (t : Transfer F) (o : Option (List ℕ)) (wall_us : ℕ)
      → udp_of (on_packet fl t o wall_us) ≡ udp_after_all (udp_of t) (optional_arrivals o wall_us)
  unfolding on_packet
  on_packet-udp t none wall_us = refl
  on_packet-udp t (some p) wall_us = server_datagram-udp t p wall_us

  pub each_packet-udp :
      (t : Transfer F) (batch : UdpRecvBatch) (wall_us : ℕ → ℕ) (i n : ℕ)
      → udp_of (each_packet fl t batch wall_us i n)
        ≡ udp_after_all (udp_of t) (packet_arrivals batch wall_us i n)
  unfolding each_packet
  each_packet-udp t batch wall_us i zero = refl
  each_packet-udp t batch wall_us i (suc n) =
      let rest = packet_arrivals batch wall_us (suc i) n in
      let o = recv_batch_get batch i in
      each_packet-udp (on_packet fl t o (wall_us i)) batch wall_us (suc i) n
      ∙ ap (λ u. udp_after_all u rest) (on_packet-udp t o (wall_us i))
      ∙ sym (udp_after_all-append (udp_of t) (optional_arrivals o (wall_us i)) rest)
