-- ===== src/OneWayClient/Delivery.antt =====
-- From `send_one_way` of src/client.rs through the network to the one-way receiver of src/server.rs.
use rperf3_rs.Base.{
  ℕ, suc, ◌+◌, ◌-◌, ◌%◌, ◌^◌, ◌<◌, ◌≤◌, ◌≡◌, refl, ap, ap₂, sym, subst, ◌∙◌, ◌⊎◌, inl, inr, List,
  [], ◌∷◌, ◌++◌, Option, none, some, false, ltb, leb, Bool-cases, arith, length, length-append, All,
  add32, add64, as_u32,
}
use rperf3_rs.TokenBucket.{TokenBucket}
use rperf3_rs.OneWay
use rperf3_rs.OneWay.{
  Observation, observe, StreamState, Tracked, track, read_header, Receiver, receiver_new,
  count_datagram, track_header, receive_datagram, Outcome, datagram, io_error, timed_out, tick,
  receive_loop, finished,
}
use rperf3_rs.OneWay.Loop.{IsBefore, IsFine, after_round, after_rounds, receive_loop-finished}
use rperf3_rs.Traffic.{ended, run_loop, run_loop-keeps_any, state_of, if_keeps}
use rperf3_rs.OneWayClient.{
  OneWaySender, SendRound, sender_new, stamp, on_send, send_one_way_step, send_one_way,
}

read_header-stamp :
    (buffer : List ℕ) (seq id : ℕ)
    → seq < 2 ^ 32
    → id < 2 ^ 32
    → read_header (stamp buffer seq id) ≡ some (seq, id)
unfolding stamp read_header
read_header-stamp buffer seq id h k = ap some (ap₂ (λ i j. (i, j)) (omega arith) (omega arith))

-- Packets of stream 0 with the numbers from `n` on, modulo 2^32.
abbrev pub IsStamped : ℕ → List (List ℕ) → Type 0
IsStamped n [] = Unit
IsStamped n (p ∷ ps) = (read_header p ≡ some (as_u32 n, 0)) × IsStamped (suc n) ps

IsStamped-append :
    (n : ℕ) (ps : List (List ℕ)) (p : List ℕ)
    → IsStamped n ps
    → read_header p ≡ some (as_u32 (n + length ps), 0)
    → IsStamped n (ps ++ (p ∷ []))
IsStamped-append n [] p v e =
    let f : n + 0 ≡ n = omega arith in (e ∙ ap (λ i. some (as_u32 i, 0)) f, tt)
IsStamped-append n (q ∷ ps) p v e =
    let f : n + suc (length ps) ≡ suc n + length ps = omega arith in
    (v.0, IsStamped-append (suc n) ps p v.1 (e ∙ ap (λ i. some (as_u32 i, 0)) f))

-- The next number of the sender is the count of its packets, which are numbered from 0 on.
abbrev pub IsSender : OneWaySender → Type 0
IsSender s = (s.seq ≡ as_u32 (length s.sent)) × IsStamped 0 s.sent

on_send-IsSender :
    (s : OneWaySender) (o : Option ℕ) (x : SendRound)
    → IsSender s
    → IsSender (state_of (on_send s (stamp s.buffer s.seq 0) o x))
unfolding on_send
on_send-IsSender s none x v = v
on_send-IsSender s (some n) x v =
    let p = stamp s.buffer s.seq 0 in
    let e : s.seq ≡ as_u32 (0 + length s.sent) = omega (arith, v.0) in
    (
      omega (arith, v.0, length-append s.sent (p ∷ [])),
      IsStamped-append 0 s.sent p v.1 (
          read_header-stamp s.buffer s.seq 0 (omega (arith, v.0)) (omega arith)
          ∙ ap (λ i. some (i, 0)) e),
    )

pub send_one_way-IsSender :
    (start duration : ℕ) (buffer : List ℕ) (bucket : Option TokenBucket) (xs : List SendRound)
    → IsSender
        (state_of (run_loop (send_one_way_step start duration) (sender_new buffer bucket) xs))
unfolding sender_new send_one_way_step
send_one_way-IsSender start duration buffer bucket xs =
    run_loop-keeps_any (send_one_way_step start duration) IsSender step (sender_new buffer bucket)
      xs (refl, tt)
  where
    step :
        (s : OneWaySender) (x : SendRound)
        → IsSender s
        → IsSender (state_of (send_one_way_step start duration s x))
    step s x v =
        if_keeps IsSender (ltb (x.now - start) duration) _ (ended s)
          (on_send-IsSender s x.outcome x v) v

-- A receiver that got the packets 0, .., n - 1 in order.
pub record IsInOrder (n : ℕ) (r : Receiver) : Type 0 where
  pub lost : r.packets_lost ≡ 0
  pub late : r.out_of_order ≡ 0
  pub received : r.packets_received ≡ n % 2 ^ 64
  pub streams :
      ((n ≡ 0) × (r.stream_states ≡ []))
      ⊎ (r.stream_states ≡ record { stream_id = 0; expected_seq = as_u32 n } ∷ [])

observe-same : (s : ℕ) → observe s s ≡ record { lost = 0; late = 0; expected_seq = add32 s 1 }
unfolding observe
observe-same s = ground arith

-- The next packet is neither lost nor late.
track-next :
    (n : ℕ) (ss : List StreamState)
    → ((n ≡ 0) × (ss ≡ [])) ⊎ (ss ≡ record { stream_id = 0; expected_seq = as_u32 n } ∷ [])
    → track ss 0 (as_u32 n) ≡ record {
      lost = 0;
      late = 0;
      states = record { stream_id = 0; expected_seq = as_u32 (suc n) } ∷ [];
    }
unfolding track
track-next n ss (inl (z, e)) =
    let o = observe-same (as_u32 n) in
    let f : add32 (as_u32 n) 1 ≡ as_u32 (suc n) = omega arith in rw (e, o, f) refl
track-next n ss (inr e) =
    let o = observe-same (as_u32 n) in
    let f : add32 (as_u32 n) 1 ≡ as_u32 (suc n) = omega arith in rw (e, o, f) refl

IsInOrder-tick : (n : ℕ) (r : Receiver) (current : ℕ) → IsInOrder n r → IsInOrder n (tick r current)
unfolding tick
IsInOrder-tick n r current v = elim (Bool-cases (leb (10 ^ 9) (current - r.prev_interval_end))) [
  | inl e ↦
      rw e (record { lost = v.lost; late = v.late; received = v.received; streams = v.streams })
  | inr e ↦ rw e v
]

IsInOrder-headed :
    (n : ℕ) (q : Receiver)
    → q.packets_lost ≡ 0
    → q.out_of_order ≡ 0
    → q.packets_received ≡ suc n % 2 ^ 64
    → ((n ≡ 0) × (q.stream_states ≡ []))
      ⊎ (q.stream_states ≡ record { stream_id = 0; expected_seq = as_u32 n } ∷ [])
    → IsInOrder (suc n) (track_header q (some (as_u32 n, 0)))
unfolding track_header
IsInOrder-headed n q l o c s =
    let e = track-next n q.stream_states s in
    record {
      lost = omega (arith, l, ap (λ t. t.lost) e);
      late = omega (arith, o, ap (λ t. t.late) e);
      received = c;
      streams = inr (ap (λ t. t.states) e);
    }

-- A datagram with the next number.
IsInOrder-next :
    (n : ℕ) (r : Receiver) (p : List ℕ)
    → read_header p ≡ some (as_u32 n, 0)
    → IsInOrder n r
    → IsInOrder (suc n) (receive_datagram r p)
unfolding receive_datagram count_datagram
IsInOrder-next n r p e v = rw e (
    IsInOrder-headed n
      (record r {
        bytes_received = add64 r.bytes_received (length p);
        interval_bytes = add64 r.interval_bytes (length p);
        packets_received = add64 r.packets_received 1;
      })
      v.lost v.late (omega (arith, v.received)) v.streams)

-- The datagrams of rounds.
abbrev pub outcome_bytes : Outcome → List (List ℕ)
outcome_bytes (datagram bytes) = bytes ∷ []
outcome_bytes io_error = []
outcome_bytes timed_out = []

abbrev pub datagrams_of : List OneWay.Round → List (List ℕ)
datagrams_of [] = []
datagrams_of (x ∷ xs) = outcome_bytes x.outcome ++ datagrams_of xs

IsInOrder-new : (start : ℕ) → IsInOrder 0 (receiver_new start)
unfolding receiver_new
IsInOrder-new start = record {
  lost = refl;
  late = refl;
  received = refl;
  streams = inl (refl, refl);
}

after_rounds-IsInOrder :
    (n : ℕ) (r : Receiver) (xs : List OneWay.Round)
    → IsStamped n (datagrams_of xs)
    → IsInOrder n r
    → IsInOrder (n + length (datagrams_of xs)) (after_rounds r xs)
after_rounds-IsInOrder n r [] v w =
    let e : n ≡ n + 0 = omega arith in subst (λ i. IsInOrder i r) e w
after_rounds-IsInOrder n r (x ∷ xs) v w = go x.outcome v (λ n r. after_rounds-IsInOrder n r xs)
  where
    go :
        (o : Outcome)
        → IsStamped n (outcome_bytes o ++ datagrams_of xs)
        → ((n : ℕ) (r : Receiver)
            → IsStamped n (datagrams_of xs)
            → IsInOrder n r
            → IsInOrder (n + length (datagrams_of xs)) (after_rounds r xs))
        → IsInOrder (n + length (outcome_bytes o ++ datagrams_of xs)) (
            after_rounds
              (after_round r (record { now = x.now; outcome = o; current = x.current }))
              xs)
    go (datagram p) v rest =
        let e : suc n + length (datagrams_of xs) ≡ n + suc (length (datagrams_of xs)) =
          omega arith in
        subst (λ i. IsInOrder i (after_rounds (receive_datagram (tick r x.current) p) xs)) e
          (rest (suc n) (receive_datagram (tick r x.current) p) v.1
            (IsInOrder-next n (tick r x.current) p v.0 (IsInOrder-tick n r x.current w)))
    go io_error v rest = rest n (tick r x.current) v (IsInOrder-tick n r x.current w)
    go timed_out v rest = rest n (tick r x.current) v (IsInOrder-tick n r x.current w)

send_one_way-run :
    (start duration : ℕ) (buffer : List ℕ) (bucket : Option TokenBucket) (xs : List SendRound)
    → 8 ≤ length buffer
    → send_one_way start duration buffer bucket xs
      ≡ some (run_loop (send_one_way_step start duration) (sender_new buffer bucket) xs)
unfolding send_one_way run_loop
send_one_way-run start duration buffer bucket [] h = refl
send_one_way-run start duration buffer bucket (x ∷ xs) h =
    let e : ltb (length buffer) 8 ≡ false = ground arith in rw e refl

-- With a buffer of at least eight bytes `send_one_way` does not panic; and if all packets that it
-- sent arrive in order, in rounds before the end of the server's
-- test none of which fails, the server's one-way receiver ends in the first round after it, and has
-- received as many packets as were sent, modulo 2^64, none of them lost and none out of order, even
-- where the 32-bit sequence number wraps.
pub receive_loop-send_one_way :
    (start duration : ℕ) (buffer : List ℕ) (bucket : Option TokenBucket) (sends : List SendRound)
    (opened test_end : ℕ) (xs : List OneWay.Round) (last : OneWay.Round) (later : List OneWay.Round)
    → let s =
        state_of (run_loop (send_one_way_step start duration) (sender_new buffer bucket) sends) in
      8 ≤ length buffer
      → datagrams_of xs ≡ s.sent
      → All (IsBefore test_end) xs
      → All IsFine xs
      → test_end ≤ last.now
      → (send_one_way start duration buffer bucket sends
          ≡ some (run_loop (send_one_way_step start duration) (sender_new buffer bucket) sends))
        × (r : Receiver) × (receive_loop test_end (receiver_new opened) (xs ++ (last ∷ later))
            ≡ finished r)
        × (r.packets_received ≡ length s.sent % 2 ^ 64)
        × (r.packets_lost ≡ 0)
        × (r.out_of_order ≡ 0)
receive_loop-send_one_way start duration buffer bucket sends opened test_end xs last later g e b f
      h =
    let v = (send_one_way-IsSender start duration buffer bucket sends).1 in
    let w =
      after_rounds-IsInOrder 0 (receiver_new opened) xs (subst (IsStamped 0) (sym e) v)
        (IsInOrder-new opened) in
    (
      send_one_way-run start duration buffer bucket sends g,
      after_rounds (receiver_new opened) xs,
      receive_loop-finished test_end (receiver_new opened) xs last later b f h,
      omega (arith, w.received, ap length e),
      w.lost,
      w.late,
    )
