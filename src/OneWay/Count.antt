-- ===== src/OneWay/Count.antt =====
-- The counters of the one-way receiver of src/server.rs against the sequence numbers that arrive.
use rperf3_rs.Base.{
  ℕ, ◌+◌, ◌-◌, ◌%◌, ◌^◌, ◌<◌, ◌≡◌, refl, ap, ◌∙◌, List, [], ◌∷◌, ◌++◌, some, Bool, false,
  if◌then◌else◌, ◌==◌, ◌||◌, arith, Bool-cases, inl, inr, add64,
}
use rperf3_rs.OneWay.{
  observe, StreamState, track, read_header, Receiver, receiver_new, count_datagram, track_header,
  receive_datagram,
}

-- A packet's sequence number and stream.
abbrev pub Packet : Type 0
Packet = ℕ × ℕ

abbrev pub has : List ℕ → ℕ → Bool
has [] id = false
has (x ∷ xs) id = (x == id) || has xs id

-- The sum of the first sequence numbers of the streams, `seen` those that came before.
abbrev pub firsts : List ℕ → List Packet → ℕ
firsts seen [] = 0
firsts seen ((seq, id) ∷ ps) =
    let known = firsts seen ps in
    let fresh = seq + firsts (seen ++ (id ∷ [])) ps in if has seen id then known else fresh

-- The sum of the numbers that the streams expect next.
abbrev pub expected_sum : List StreamState → ℕ
expected_sum [] = 0
expected_sum (s ∷ ss) = s.expected_seq + expected_sum ss

abbrev pub ids : List StreamState → List ℕ
ids [] = []
ids (s ∷ ss) = s.stream_id ∷ ids ss

-- A number after which the next one does not wrap.
abbrev pub IsSeq : ℕ → Type 0
IsSeq seq = seq < 2 ^ 32 - 1

observe_balance :
    (expected seq : ℕ)
    → IsSeq seq
    → let o = observe expected seq in o.expected_seq + o.late ≡ expected + o.lost + 1
unfolding observe
observe_balance expected seq h = ground arith

track_balance :
    (ss : List StreamState) (id seq : ℕ)
    → IsSeq seq
    → let t = track ss id seq in
      expected_sum t.states + t.late
      ≡ expected_sum ss + (if has (ids ss) id then 0 else seq) + t.lost + 1
unfolding track
track_balance [] id seq h = omega (arith, observe_balance seq seq h)
track_balance (s ∷ ss) id seq h =
    let r = track_balance ss id seq h in
    let o = observe_balance s.expected_seq seq h in
    elim (Bool-cases (s.stream_id == id)) [
      | inl e ↦ rw e (omega (arith, o))
      | inr e ↦ rw e (omega (arith, r))
    ]

ids-track :
    (ss : List StreamState) (id seq : ℕ)
    → ids (track ss id seq).states ≡ (if has (ids ss) id then ids ss else ids ss ++ (id ∷ []))
unfolding track
ids-track [] id seq = refl
ids-track (s ∷ ss) id seq =
    let r = ids-track ss id seq in
    elim (Bool-cases (s.stream_id == id)) [
      | inl e ↦ rw e refl
      | inr e ↦ elim (Bool-cases (has (ids ss) id)) [
        | inl f ↦
            let q : ids (track ss id seq).states ≡ ids ss = rw f at r in
            rw (e, f) (ap (λ x. s.stream_id ∷ x) q)
        | inr f ↦
            let q : ids (track ss id seq).states ≡ ids ss ++ (id ∷ []) = rw f at r in
            rw (e, f) (ap (λ x. s.stream_id ∷ x) q)
      ]
    ]

-- The datagrams of packets: a header and a payload each.
pub record Arrival : Type 0 where
  pub packet : Packet
  pub bytes : List ℕ
  pub header : read_header bytes ≡ some packet
  pub in_range : IsSeq packet.0

unfoldable pub receive_all : Receiver → List Arrival → Receiver
receive_all r [] = r
receive_all r (a ∷ arrivals) = receive_all (receive_datagram r a.bytes) arrivals

abbrev pub packets_of : List Arrival → List Packet
packets_of [] = []
packets_of (a ∷ arrivals) = a.packet ∷ packets_of arrivals

receive_datagram-track :
    (r : Receiver) (a : Arrival)
    → let t = track r.stream_states a.packet.1 a.packet.0 in
      let q = receive_datagram r a.bytes in
      (q.stream_states ≡ t.states)
      × (q.packets_lost ≡ add64 r.packets_lost t.lost)
      × (q.out_of_order ≡ add64 r.out_of_order t.late)
      × (q.packets_received ≡ add64 r.packets_received 1)
unfolding receive_datagram track_header count_datagram
receive_datagram-track r a = rw (a.header) (refl, refl, refl, refl)

-- The numbers expected next and the late packets make up for the first numbers, the lost and the
-- received, modulo 2^64.
pub receive_all_balance :
    (r : Receiver) (arrivals : List Arrival)
    → let q = receive_all r arrivals in
      (expected_sum q.stream_states + q.out_of_order + (r.packets_lost + r.packets_received))
        % 2 ^ 64
      ≡ (expected_sum r.stream_states
          + firsts (ids r.stream_states) (packets_of arrivals)
          + r.out_of_order
          + (q.packets_lost + q.packets_received))
        % 2 ^ 64
unfolding receive_all
receive_all_balance r [] = omega arith
receive_all_balance r (a ∷ arrivals) =
    let (e, l, o, p) = receive_datagram-track r a in
    let q = receive_datagram r a.bytes in
    let ih = receive_all_balance q arrivals in
    let t = track_balance r.stream_states a.packet.1 a.packet.0 a.in_range in
    let i = ids-track r.stream_states a.packet.1 a.packet.0 in
    let ps = packets_of arrivals in
    let x : expected_sum q.stream_states
        ≡ expected_sum (track r.stream_states a.packet.1 a.packet.0).states =
      ap expected_sum e in
    elim (Bool-cases (has (ids r.stream_states) a.packet.1)) [
      | inl h ↦
          let i' : ids q.stream_states ≡ ids r.stream_states = ap ids e ∙ (rw h at i) in
          let f : firsts (ids q.stream_states) ps ≡ firsts (ids r.stream_states) ps =
            ap (λ s. firsts s ps) i' in
          let t' = rw h at t in rw h (omega (arith, ih, l, o, p, t', f, x))
      | inr h ↦
          let i' : ids q.stream_states ≡ ids r.stream_states ++ (a.packet.1 ∷ []) =
            ap ids e ∙ (rw h at i) in
          let f : firsts (ids q.stream_states) ps
              ≡ firsts (ids r.stream_states ++ (a.packet.1 ∷ [])) ps =
            ap (λ s. firsts s ps) i' in
          let t' = rw h at t in rw h (omega (arith, ih, l, o, p, t', f, x))
    ]

-- A test of any number of streams: what its streams expect at the end, and the late packets, are
-- their first sequence numbers, the lost packets and the received packets, modulo 2^64. So without
-- late packets the lost are exactly the gaps between the first and the last of every stream.
pub receive_all-receiver_new :
    (start : ℕ) (arrivals : List Arrival)
    → let q = receive_all (receiver_new start) arrivals in
      (expected_sum q.stream_states + q.out_of_order) % 2 ^ 64
      ≡ (firsts [] (packets_of arrivals) + q.packets_lost + q.packets_received) % 2 ^ 64
unfolding receiver_new
receive_all-receiver_new start arrivals =
    omega (arith, receive_all_balance (receiver_new start) arrivals)
