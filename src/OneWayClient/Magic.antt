-- ===== src/OneWayClient/Magic.antt =====
-- The packets of src/udp_packet.rs, which the server sends, in `recv_one_way` of src/client.rs.
use rperf3_rs.Base.{
  ℕ, ◌-◌, ◌≡◌, refl, ap, ◌∙◌, ◌⊎◌, inl, inr, List, Option, none, some, Bool, true, false, ◌&&◌, ltb,
  leb, arith, length, All, add64, Bool-cases, Option-cases,
}
use rperf3_rs.Base.Float.{Float}
use rperf3_rs.UdpPacket.{UdpPacketHeader, rperf3_udp_magic, parse_packet, from_bytes, read_fields}
use rperf3_rs.UdpPacket.Roundtrip.{read_magic}
use rperf3_rs.Traffic.{ended, run_loop, run_loop-keeps, state_of, if_keeps}
use rperf3_rs.OneWayClient.{
  OneWayReceiver, RecvRound, one_way_receiver_new, first_seq, order_check, receive_bytes,
  on_datagram, recv_one_way_step,
}

-- The datagram of a round, if there is one, parses as a test packet.
abbrev pub IsTestPacket : Option (List ℕ) → Type 0
IsTestPacket none = Unit
IsTestPacket (some p) = (q : UdpPacketHeader × List ℕ) × (parse_packet p ≡ some q)

read_fields-parse_packet :
    (p : List ℕ) (q : UdpPacketHeader × List ℕ)
    → parse_packet p ≡ some q
    → (h : UdpPacketHeader) × (read_fields p ≡ some h)
unfolding parse_packet from_bytes
read_fields-parse_packet p q e = elim (Option-cases (read_fields p)) [
  | inr (h, f) ↦ (h, f)
  | inl f ↦ absurd (ground arith)
]

-- What parses begins with the marker.
first_seq-parse_packet :
    (p : List ℕ)
    → IsTestPacket (some p)
    → (first_seq p ≡ none) ⊎ (first_seq p ≡ some rperf3_udp_magic)
unfolding first_seq
first_seq-parse_packet p (q, e) = elim (Bool-cases (leb 4 (length p))) [
  | inr b ↦ rw b (inl refl)
  | inl b ↦
      let (h, f) = read_fields-parse_packet p q e in
      let (m, k) = read_magic p h f in rw b (inr (m ∙ ap some k))
]

-- Nothing was out of order, and the number before was none or the marker.
abbrev pub IsMarked : {F : Type 0} → OneWayReceiver F → Type 0
IsMarked r = (r.out_of_order ≡ 0) × ((r.last_seq ≡ 0) ⊎ (r.last_seq ≡ rperf3_udp_magic))

order_check-IsMarked :
    {F : Type 0} (r : OneWayReceiver F) (o : Option ℕ)
    → (o ≡ none) ⊎ (o ≡ some rperf3_udp_magic)
    → IsMarked r
    → IsMarked (order_check r o)
unfolding order_check
order_check-IsMarked r o (inl e) v = rw e v
order_check-IsMarked r o (inr e) v =
    let same : (ltb 0 r.last_seq && ltb rperf3_udp_magic r.last_seq) ≡ false =
      ground (arith, v.1) in
    rw (e, same) (v.0, inr refl)

module _ (fl : Float) where
  open fl use {F}

  receive_bytes-IsMarked :
      (r : OneWayReceiver F) (p : List ℕ) (now : ℕ)
      → IsTestPacket (some p)
      → IsMarked r
      → IsMarked (receive_bytes fl r p now)
  unfolding receive_bytes
  receive_bytes-IsMarked r p now h v =
      order_check-IsMarked
        (record r {
          bytes_received = add64 r.bytes_received (length p);
          packets_received = add64 r.packets_received 1;
        })
        (first_seq p) (first_seq-parse_packet p h) v

  on_datagram-IsMarked :
      (r : OneWayReceiver F) (o : Option (List ℕ)) (now : ℕ)
      → IsTestPacket o
      → IsMarked r
      → IsMarked (state_of (on_datagram fl r o now)).1
  unfolding on_datagram
  on_datagram-IsMarked r none now h v = v
  on_datagram-IsMarked r (some p) now h v = receive_bytes-IsMarked r p now h v

  -- If everything that arrives is a test packet of the program, with the marker in its first bytes,
  -- as the server sends them, `recv_one_way` counts no packet as out of order, in whatever order
  -- they arrive.
  pub recv_one_way-out_of_order :
      (start duration : ℕ) (xs : List RecvRound)
      → All (λ x. IsTestPacket x.datagram) xs
      → let s = run_loop (recv_one_way_step fl start duration) (true, one_way_receiver_new) xs in
        (state_of s).1.out_of_order ≡ 0
  unfolding one_way_receiver_new recv_one_way_step
  recv_one_way-out_of_order start duration xs h =
      (run_loop-keeps (recv_one_way_step fl start duration)
        (λ (s : Bool × OneWayReceiver F). IsMarked s.1) (λ x. IsTestPacket x.datagram)
        (λ s x k v.
          if_keeps (λ (s : Bool × OneWayReceiver F). IsMarked s.1) (ltb (x.now - start) duration) _
            (ended s) (on_datagram-IsMarked s.1 x.datagram x.arrived_at k v) v)
        (true, one_way_receiver_new) xs h (refl, inl refl)).0
