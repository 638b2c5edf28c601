-- ===== src/Traffic/Lossless.antt =====
-- From the senders of src/client.rs through the network to `receive_udp_data` of src/server.rs: what
-- the server finds if everything arrives in order.
use rperf3_rs.Base.{
  ℕ, suc, ◌+◌, ◌%◌, ◌^◌, ◌≡◌, ◌<◌, ◌≤◌, refl, ap, ap₂, sym, subst, ◌∙◌, List, [], ◌∷◌, ◌++◌, Option,
  none, false, ◌==◌, ltb, max, arith, length, All, u64_max,
}
use rperf3_rs.Base.Float.{Float}
use rperf3_rs.UdpPacket.{header_new, TimestampCache}
use rperf3_rs.TokenBucket.{TokenBucket}
use rperf3_rs.Sender
use rperf3_rs.Measurements.Collector.{
  MeasurementsCollector, collector_new, calculate_udp_loss, udp_state_default,
}
use rperf3_rs.Measurements.Collector.Loss.{
  Arrival, receive_all, mem, missing, IsDistinct, greatest, descents, IsSequence, length-missing,
  receive_all-new, calculate_udp_loss-receive_all,
}
use rperf3_rs.Sender.Sequence.{IsPacket, IsNumbered}
use rperf3_rs.Traffic.{Plan, run_loop, state_of, before, transfer_new}
use rperf3_rs.Traffic.UdpReceive.{
  Received, datagram, recv_failed, timed_out, RecvRound, server_udp_step,
}
use rperf3_rs.Traffic.UdpReceive.Delivery.{
  header_arrival, arrivals_in, received_arrivals, recv_arrivals, all_arrivals, server_stops,
  udp_after_all, udp_state-receive_all,
}
use rperf3_rs.Traffic.UdpReceive.Loops.{udp_loops-IsDelivered}
use rperf3_rs.Traffic.UdpSend.{SendRound, run_client_sending}
use rperf3_rs.Traffic.UdpSend.Numbers.{udp_sending-IsSent}
use rperf3_rs.Traffic.UdpBatched.{BatchRound, run_batched_sending}
use rperf3_rs.Traffic.UdpBatched.Numbers.{run_batched_sending-IsSending}

-- The datagrams of rounds.
abbrev pub received_bytes : Received → List (List ℕ)
received_bytes (datagram bytes) = bytes ∷ []
received_bytes recv_failed = []
received_bytes timed_out = []

abbrev pub datagrams_in : List RecvRound → List (List ℕ)
datagrams_in [] = []
datagrams_in (x ∷ xs) = received_bytes x.outcome ++ datagrams_in xs

-- Arrivals with the numbers from `n` on.
abbrev pub IsConsecutive : ℕ → List Arrival → Type 0
IsConsecutive n [] = Unit
IsConsecutive n (a ∷ rest) = (a.sequence ≡ n) × IsConsecutive (suc n) rest

arrivals_in-IsPacket :
    (size n : ℕ) (p : List ℕ) (wall_us : ℕ)
    → IsPacket size n p
    → n < 2 ^ 32
    → (a : Arrival) × (arrivals_in p wall_us ≡ a ∷ []) × (a.sequence ≡ n)
unfolding header_new
arrivals_in-IsPacket size n p wall_us v h =
    (_, ap (λ o. header_arrival o wall_us) v.parses, omega arith)

rounds-IsConsecutive :
    (size n : ℕ) (xs : List RecvRound)
    → IsNumbered size n (datagrams_in xs)
    → n + length (datagrams_in xs) < 2 ^ 32
    → IsConsecutive n (all_arrivals recv_arrivals xs)
      × (length (all_arrivals recv_arrivals xs) ≡ length (datagrams_in xs))
rounds-IsConsecutive size n [] v h = (tt, refl)
rounds-IsConsecutive size n (x ∷ xs) v h = go x.outcome v h (λ n. rounds-IsConsecutive size n xs)
  where
    go :
        (r : Received)
        → IsNumbered size n (received_bytes r ++ datagrams_in xs)
        → n + length (received_bytes r ++ datagrams_in xs) < 2 ^ 32
        → ((n : ℕ)
            → IsNumbered size n (datagrams_in xs)
            → n + length (datagrams_in xs) < 2 ^ 32
            → IsConsecutive n (all_arrivals recv_arrivals xs)
              × (length (all_arrivals recv_arrivals xs) ≡ length (datagrams_in xs)))
        → let arrived = received_arrivals r x.wall_us ++ all_arrivals recv_arrivals xs in
          IsConsecutive n arrived × (length arrived ≡ length (received_bytes r ++ datagrams_in xs))
    go (datagram p) v h rest =
        let (a, e, s) = arrivals_in-IsPacket size n p x.wall_us v.0 (omega (arith, h)) in
        let (w, l) = rest (suc n) v.1 (omega (arith, h)) in rw e ((s, w), omega (arith, l))
    go recv_failed v h rest = rest n v h
    go timed_out v h rest = rest n v h

-- Consecutive numbers are distinct, their greatest is the last, and none is smaller than the one
-- before.
mem-IsConsecutive :
    (k n : ℕ) (rest : List Arrival) → k < n → IsConsecutive n rest → mem k rest ≡ false
mem-IsConsecutive k n [] h v = refl
mem-IsConsecutive k n (a ∷ rest) h v =
    let m = mem-IsConsecutive k (suc n) rest (omega (arith, h)) v.1 in
    let e : (a.sequence == k) ≡ false = ground (arith, v.0) in rw e m

IsConsecutive-IsDistinct : (n : ℕ) (rest : List Arrival) → IsConsecutive n rest → IsDistinct rest
IsConsecutive-IsDistinct n [] v = tt
IsConsecutive-IsDistinct n (a ∷ rest) v = (
  mem-IsConsecutive a.sequence (suc n) rest (omega (arith, v.0)) v.1,
  IsConsecutive-IsDistinct (suc n) rest v.1,
)

greatest-IsConsecutive :
    (n : ℕ) (rest : List Arrival) → IsConsecutive (suc n) rest → greatest n rest ≡ n + length rest
greatest-IsConsecutive n [] v = omega arith
greatest-IsConsecutive n (a ∷ rest) v =
    let e : max n a.sequence ≡ suc n = omega (arith, v.0) in
    ap (λ m. greatest m rest) e ∙ (greatest-IsConsecutive (suc n) rest v.1 ∙ omega arith)

descents-IsConsecutive :
    (last n : ℕ) (rest : List Arrival) → last ≤ n → IsConsecutive n rest → descents last rest ≡ 0
descents-IsConsecutive last n [] h v = refl
descents-IsConsecutive last n (a ∷ rest) h v =
    let d = descents-IsConsecutive a.sequence (suc n) rest (omega (arith, v.0)) v.1 in
    let e : ltb a.sequence last ≡ false = ground (arith, v.0) in rw e (omega (arith, d))

IsConsecutive-bound :
    (n m : ℕ) (rest : List Arrival)
    → n + length rest ≤ m
    → IsConsecutive n rest
    → All (λ a. a.sequence < m) rest
IsConsecutive-bound n m [] h v = tt
IsConsecutive-bound n m (a ∷ rest) h v =
    (omega (arith, v.0, h), IsConsecutive-bound (suc n) m rest (omega (arith, h)) v.1)

module _ (fl : Float) where
  consecutive_lossless :
      (arrived : List Arrival)
      → IsConsecutive 0 arrived
      → 0 < length arrived
      → length arrived < 2 ^ 32
      → let c = receive_all fl (collector_new fl) arrived in
        (calculate_udp_loss c ≡ (0, length arrived)) × (c.udp_state.out_of_order % 2 ^ 64 ≡ 0)
  consecutive_lossless [] v h l = absurd (omega arith)
  consecutive_lossless (a ∷ rest) v h l =
      let d = IsConsecutive-IsDistinct 0 (a ∷ rest) v in
      let s : All IsSequence (a ∷ rest) =
        IsConsecutive-bound 0 u64_max (a ∷ rest) (omega (arith, l)) v in
      let w : IsConsecutive (suc a.sequence) rest =
        subst (λ n. IsConsecutive (suc n) rest) (sym v.0) v.1 in
      let g : greatest a.sequence rest + 1 ≡ length (a ∷ rest) =
        omega (arith, greatest-IsConsecutive a.sequence rest w, v.0) in
      let b = IsConsecutive-bound 0 (length (a ∷ rest)) (a ∷ rest) (omega arith) v in
      let m : missing (length (a ∷ rest)) (a ∷ rest) ≡ 0 =
        omega (arith, length-missing (length (a ∷ rest)) (a ∷ rest) d b) in
      let z = descents-IsConsecutive a.sequence 1 rest (omega (arith, v.0)) v.1 in
      (
        calculate_udp_loss-receive_all fl a rest s d
            ∙ ap₂ (λ i j. (i, j)) (ap (λ n. missing n (a ∷ rest)) g ∙ m) g,
        omega (arith, (receive_all-new fl a rest s).2, z),
      )

IsNumbered-prefix :
    (size n : ℕ) (ps qs : List (List ℕ)) → IsNumbered size n (ps ++ qs) → IsNumbered size n ps
IsNumbered-prefix size n [] qs v = tt
IsNumbered-prefix size n (p ∷ ps) qs v = (v.0, IsNumbered-prefix size (suc n) ps qs v.1)

calculate_udp_loss-udp_state :
    {F : Type 0} (c d : MeasurementsCollector F)
    → c.udp_state ≡ d.udp_state
    → calculate_udp_loss c ≡ calculate_udp_loss d
unfolding calculate_udp_loss
calculate_udp_loss-udp_state c d e = ap (λ u. calculate_udp_loss (record d { udp_state = u })) e

module _ (fl : Float) where
  open fl use {F}

  -- The collector of `receive_udp_data` after rounds, which it started with `d`.
  abbrev pub server_collector :
      Plan → MeasurementsCollector F → List RecvRound → MeasurementsCollector F
  server_collector plan d rounds =
      (state_of (run_loop (server_udp_step fl plan) (transfer_new d plan.start) rounds)).collector

  -- The datagrams of the test's rounds are these packets, which are some and fewer than 2^32.
  abbrev pub IsArrival : Plan → List RecvRound → List (List ℕ) → Type 0
  IsArrival plan rounds sent =
      (datagrams_in (before (server_stops plan) rounds) ≡ sent)
      × (0 < length sent)
      × (length sent < 2 ^ 32)

  -- No UDP packet was received yet.
  abbrev pub IsUnused : MeasurementsCollector F → Type 0
  IsUnused d = d.udp_state ≡ udp_state_default fl

  -- No packet of `k` is lost or out of order.
  abbrev pub IsLossless : MeasurementsCollector F → ℕ → Type 0
  IsLossless c k = (calculate_udp_loss c ≡ (0, k)) × (c.udp_state.out_of_order % 2 ^ 64 ≡ 0)

  -- What such a collector makes of packets is what a new one makes of them.
  unused-receive_all :
      (d : MeasurementsCollector F) (arrived : List Arrival)
      → IsUnused d
      → (receive_all fl d arrived).udp_state ≡ (receive_all fl (collector_new fl) arrived).udp_state
  unfolding collector_new
  unused-receive_all d arrived u =
      udp_state-receive_all fl d arrived
      ∙ ap (λ s. udp_after_all fl s arrived) u
      ∙ sym (udp_state-receive_all fl (collector_new fl) arrived)

  IsNumbered-IsLossless :
      (plan : Plan) (d : MeasurementsCollector F) (size : ℕ) (rounds : List RecvRound)
      (sent : List (List ℕ))
      → IsUnused d
      → IsNumbered size 0 sent
      → IsArrival plan rounds sent
      → IsLossless (server_collector plan d rounds) (length sent)
  IsNumbered-IsLossless plan d size rounds sent i v (e, p, l) =
      let xs = before (server_stops plan) rounds in
      let arrived = all_arrivals recv_arrivals xs in
      let n : IsNumbered size 0 (datagrams_in xs) = subst (IsNumbered size 0) (sym e) v in
      let le : length (datagrams_in xs) ≡ length sent = ap length e in
      let (w, k) = rounds-IsConsecutive size 0 xs n (omega (arith, le, l)) in
      let (loss, late) =
        consecutive_lossless fl arrived w (omega (arith, k, le, p)) (omega (arith, k, le, l)) in
      let u = (udp_loops-IsDelivered fl plan d rounds [] []).0.0 ∙ unused-receive_all d arrived i in
      (
        calculate_udp_loss-udp_state (server_collector plan d rounds)
              (receive_all fl (collector_new fl) arrived) u
            ∙ (loss ∙ ap (λ i. (0, i)) (k ∙ le)),
        ap (λ s. s.out_of_order % 2 ^ 64) u ∙ late,
      )

  -- If all packets that a client's sender sent, the standard one (received in `xs`) or the batched one
  -- (in `ys`), arrive in order within the test of a server whose collector, of whatever else it has
  -- recorded, has received no UDP packet before, then after the rounds of receive_udp_data in which they
  -- came its collector finds that none was lost, that as many were expected as were sent, and that none
  -- was out of order; for at least one and fewer than 2^32 packets, whatever the limits, the clocks,
  -- the timeouts and what else the rounds say.
  pub sent-IsLossless :
      {A : Type 0} (client server : Plan) (sizes : Sender.Plan A) (bucket : Option TokenBucket)
      (c d : MeasurementsCollector F) (cache : TimestampCache) (single : List SendRound)
      (batches : List BatchRound) (xs ys : List RecvRound)
      → let size = sizes.payload_size in
        let s = state_of (run_client_sending fl client bucket size c cache single) in
        let b = state_of (run_batched_sending fl client sizes bucket c cache batches) in
        IsUnused d
        → IsArrival server xs s.sent
        → IsArrival server ys b.sent
        → IsLossless (server_collector server d xs) (length s.sent)
          × IsLossless (server_collector server d ys) (length b.sent)
  sent-IsLossless client server sizes bucket c d cache single batches xs ys u h k =
      let size = sizes.payload_size in
      let b = state_of (run_batched_sending fl client sizes bucket c cache batches) in
      (
        IsNumbered-IsLossless server d size xs _ u
            (udp_sending-IsSent fl client none bucket size c cache single).1.numbered h,
        IsNumbered-IsLossless server d size ys b.sent u
            (IsNumbered-prefix size 0 b.sent b.sender.batch.packets
              (run_batched_sending-IsSending fl client sizes bucket c cache batches).numbered)
            k,
      )
