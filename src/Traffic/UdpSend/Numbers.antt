-- ===== src/Traffic/UdpSend/Numbers.antt =====
-- The packets that the sending UDP loops of src/server.rs and src/client.rs send, and what they count.
use rperf3_rs.Base.{
  ℕ, ◌+◌, ◌-◌, ◌%◌, ◌^◌, ◌≡◌, refl, subst, Option, none, some, List, [], ◌∷◌, ◌++◌, ltb, arith,
  length, length-append, add64, as_u32, Bool-cases, inl, inr,
}
use rperf3_rs.Base.Float.{Float}
use rperf3_rs.UdpPacket.{TimestampCache, Readings, create_packet_fast, get_timestamp}
use rperf3_rs.UdpPacket.Roundtrip.{parse_packet-create_packet_fast}
use rperf3_rs.TokenBucket.{TokenBucket}
use rperf3_rs.Measurements.Collector.{
  MeasurementsCollector, record_udp_packet, record_bytes_sent, on_stream,
}
use rperf3_rs.Sender.Sequence.{IsPacket, IsNumbered, IsNumbered-append}
use rperf3_rs.Traffic.{
  Plan, Transfer, Clock, Details, is_due, ended, run_loop-keeps_any, state_of, transfer_new,
  if_keeps,
}
use rperf3_rs.Traffic.Books.{
  packets_booked, close_interval-books, close_interval-packets, get_or_create_stream-SameTotals,
}
use rperf3_rs.Traffic.Pacing.{bytes_per_sec_of}
use rperf3_rs.Traffic.Tcp.Rounds.{record_bytes_sent-totals}
use rperf3_rs.Traffic.UdpReceive.{udp_interval, loss_details}
use rperf3_rs.Traffic.UdpSend.{
  SendRound, ServerSending, ClientSending, sent_packet, packet_details, on_server_send,
  server_send_step, on_client_send, client_send_step, server_sending_new, client_sending_new,
  run_server_sending, run_client_sending,
}

pub create_packet_fast-IsPacket :
    (cache : TimestampCache) (r : Readings) (sequence n size : ℕ)
    → sequence ≡ as_u32 n
    → IsPacket size n (create_packet_fast cache r 0 sequence size).0
create_packet_fast-IsPacket cache r sequence n size e = record {
  timestamp = (get_timestamp cache r).0;
  parses =
      rw (← e)
        (parse_packet-create_packet_fast cache r 0 sequence size (omega arith) (omega (arith, e)));
}

record_udp_packet-totals :
    {F : Type 0} (c : MeasurementsCollector F) (id : ℕ)
    → let d = record_udp_packet c id in
      (d.atomic_packets ≡ add64 c.atomic_packets 1)
      × (d.atomic_bytes_sent ≡ c.atomic_bytes_sent)
      × (d.udp_state ≡ c.udp_state)
unfolding record_udp_packet on_stream
record_udp_packet-totals c id =
    let v =
      get_or_create_stream-SameTotals (record c { atomic_packets = add64 c.atomic_packets 1 }) id in
    (v.packets, v.sent, v.udp)

-- The transfer and the packets that left agree: they are numbered from 0 on, in order, the collector's
-- counter grew by as many, and so did the reports with the open interval, modulo 2^64.
pub record IsSent {F : Type 0} (size base : ℕ) (t : Transfer F) (sent : List (List ℕ))
    : Type 0 where
  pub numbered : IsNumbered size 0 sent
  pub counted : t.collector.atomic_packets % 2 ^ 64 ≡ (base + length sent) % 2 ^ 64
  pub booked : packets_booked t % 2 ^ 64 ≡ length sent % 2 ^ 64

module _ (fl : Float) (plan : Plan) where
  open fl use {F}

  udp_interval-packets :
      (t : Transfer F) (clock : Clock) (details : Details F)
      → details.packets ≡ some t.interval_packets
      → let u = udp_interval fl plan t clock details in
        (packets_booked u ≡ packets_booked t)
        × (u.collector.atomic_packets ≡ t.collector.atomic_packets)
  unfolding udp_interval
  udp_interval-packets t clock details p = elim (Bool-cases (is_due plan t clock)) [
    | inl e ↦
        let v = close_interval-packets fl plan t clock t.interval_packets details p in
        let w = (close_interval-books fl plan t clock t.interval_packets details).1.packets in
        rw e (v, w)
    | inr e ↦ rw e (refl, refl)
  ]

  -- A packet with the next number that leaves, and its report.
  step-IsSent :
      (size base : ℕ) (t : Transfer F) (sent : List (List ℕ)) (p : List ℕ) (n : ℕ) (clock : Clock)
      (details : Details F)
      → details.packets ≡ some (sent_packet t n).interval_packets
      → IsPacket size (length sent) p
      → IsSent size base t sent
      → IsSent size base (udp_interval fl plan (sent_packet t n) clock details) (sent ++ (p ∷ []))
  unfolding sent_packet
  step-IsSent size base t sent p n clock details e w v =
      let (b, c) = udp_interval-packets (sent_packet t n) clock details e in
      let d = record_udp_packet-totals (record_bytes_sent t.collector 0 n) 0 in
      let f = (record_bytes_sent-totals t.collector 0 n).2 in
      let l = length-append sent (p ∷ []) in
      let z : length sent ≡ 0 + length sent = omega arith in
      record {
        numbered = IsNumbered-append size 0 sent p v.numbered (subst (λ i. IsPacket size i p) z w);
        counted = omega (arith, c, d.0, f, l, v.counted);
        booked = omega (arith, b, l, v.booked);
      }

  -- What holds of the server's sender, and of the client's: the next number is the count of packets.
  abbrev pub IsServerSent : ℕ → ℕ → ServerSending F → Type 0
  IsServerSent size base s =
      (s.sequence ≡ as_u32 (length s.sent)) × IsSent size base s.transfer s.sent

  abbrev pub IsClientSent : ℕ → ℕ → ClientSending F → Type 0
  IsClientSent size base s =
      (s.sequence ≡ length s.sent % 2 ^ 64) × IsSent size base s.transfer s.sent

  on_server_send-IsServerSent :
      (target : Option ℕ) (size base : ℕ) (s : ServerSending F) (p : List ℕ)
      (cache : TimestampCache) (o : Option ℕ) (x : SendRound)
      → IsPacket size (length s.sent) p
      → IsServerSent size base s
      → IsServerSent size base (state_of (on_server_send fl plan target s p cache o x))
  unfolding on_server_send packet_details
  on_server_send-IsServerSent target size base s p cache none x w v = v
  on_server_send-IsServerSent target size base s p cache (some n) x w v = (
    omega (arith, v.0, length-append s.sent (p ∷ [])),
    step-IsSent size base s.transfer s.sent p n x.clock (packet_details (sent_packet s.transfer n))
        refl w v.1,
  )

  server_send_step-IsServerSent :
      (target : Option ℕ) (size base : ℕ) (s : ServerSending F) (x : SendRound)
      → IsServerSent size base s
      → IsServerSent size base (state_of (server_send_step fl plan target size s x))
  unfolding server_send_step
  server_send_step-IsServerSent target size base s x v =
      let w = create_packet_fast-IsPacket s.cache x.readings s.sequence (length s.sent) size v.0 in
      if_keeps (IsServerSent size base) (ltb (x.now - plan.start) plan.duration) _ (ended s)
        (on_server_send-IsServerSent target size base s _ _ x.outcome x w v) v

  on_client_send-IsClientSent :
      (size base : ℕ) (s : ClientSending F) (p : List ℕ) (cache : TimestampCache) (o : Option ℕ)
      (x : SendRound)
      → IsPacket size (length s.sent) p
      → IsClientSent size base s
      → IsClientSent size base (state_of (on_client_send fl plan s p cache o x))
  unfolding on_client_send loss_details
  on_client_send-IsClientSent size base s p cache none x w v = v
  on_client_send-IsClientSent size base s p cache (some n) x w v = (
    omega (arith, v.0, length-append s.sent (p ∷ [])),
    step-IsSent size base s.transfer s.sent p n x.clock (loss_details fl (sent_packet s.transfer n))
        refl w v.1,
  )

  client_send_step-IsClientSent :
      (size base : ℕ) (s : ClientSending F) (x : SendRound)
      → IsClientSent size base s
      → IsClientSent size base (state_of (client_send_step fl plan size s x))
  unfolding client_send_step
  client_send_step-IsClientSent size base s x v =
      let e : as_u32 s.sequence ≡ as_u32 (length s.sent) = omega (arith, v.0) in
      let w =
        create_packet_fast-IsPacket s.cache x.readings (as_u32 s.sequence) (length s.sent) size e in
      if_keeps (IsClientSent size base) (ltb (x.now - plan.start) plan.duration) _ (ended s)
        (if_keeps (IsClientSent size base) x.cancelled (ended s) _ v
          (on_client_send-IsClientSent size base s _ _ x.outcome x w v))
        v

  -- Wherever the sending UDP loops of the server and of the client stand, the packets that left
  -- parse as the packets 0, 1, 2, .. of stream 0, in order and without a gap, the collector has
  -- counted as many, and so have the reports with the open interval, modulo 2^64.
  pub udp_sending-IsSent :
      (bandwidth : Option ℕ) (bucket : Option TokenBucket) (size : ℕ) (c : MeasurementsCollector F)
      (cache : TimestampCache) (rounds : List SendRound)
      → let s = state_of (run_server_sending fl plan bandwidth size c cache rounds) in
        let r = state_of (run_client_sending fl plan bucket size c cache rounds) in
        IsSent size c.atomic_packets s.transfer s.sent
        × IsSent size c.atomic_packets r.transfer r.sent
  unfolding run_server_sending run_client_sending server_sending_new client_sending_new transfer_new
  udp_sending-IsSent bandwidth bucket size c cache rounds =
      let target = bytes_per_sec_of bandwidth in
      let s = server_sending_new fl plan c cache in
      let r = client_sending_new plan c bucket cache in
      let v : IsSent size c.atomic_packets (transfer_new c plan.start) [] = record {
        numbered = tt;
        counted = omega arith;
        booked = refl;
      } in
      (
        (run_loop-keeps_any (server_send_step fl plan target size)
            (IsServerSent size c.atomic_packets)
            (server_send_step-IsServerSent target size c.atomic_packets) s rounds (refl, v)).1,
        (run_loop-keeps_any (client_send_step fl plan size) (IsClientSent size c.atomic_packets)
            (client_send_step-IsClientSent size c.atomic_packets) r rounds (refl, v)).1,
      )
