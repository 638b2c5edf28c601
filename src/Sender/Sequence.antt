-- ===== src/Sender/Sequence.antt =====
-- The sequence numbers of the packets that the sender of src/client.rs has waiting.
use rperf3_rs.Base.{
  ℕ, zero, suc, ◌+◌, ◌-◌, ◌^◌, ◌≤◌, ◌<◌, ◌≡◌, refl, sym, ap, subst, List, [], ◌∷◌, ◌++◌, some, true,
  false, leb, length, drop, replicate, as_u32, add64, arith, length-append, length-drop, dec_le,
  Bool-cases, inl, inr,
}
use rperf3_rs.UdpPacket.{header_new, create_packet_fast, get_timestamp, parse_packet, Readings}
use rperf3_rs.UdpPacket.Roundtrip.{parse_packet-create_packet_fast}
use rperf3_rs.Batch.Send.{Sendmmsg, add, is_full, send_mmsg, drain, max_batch_size}
use rperf3_rs.Batch.Send.Order.{count_of, send_mmsg-drain}
use rperf3_rs.Sender.{UdpSender, Pass, Plan, may_fill, fill_one, fill_batch, send_round}

-- A packet of stream 0 with a number and a payload of zeros.
pub record IsPacket (size n : ℕ) (p : List ℕ) : Type 0 where
  pub timestamp : ℕ
  pub parses : parse_packet p ≡ some (header_new 0 (as_u32 n) timestamp, replicate size 0)

-- Packets with the numbers from `n` on, one after another.
abbrev pub IsNumbered : ℕ → ℕ → List (List ℕ) → Type 0
IsNumbered size n [] = Unit
IsNumbered size n (p ∷ ps) = IsPacket size n p × IsNumbered size (suc n) ps

pub IsNumbered-append :
    (size n : ℕ) (ps : List (List ℕ)) (p : List ℕ)
    → IsNumbered size n ps
    → IsPacket size (n + length ps) p
    → IsNumbered size n (ps ++ (p ∷ []))
IsNumbered-append size n [] p v w =
    let e : n + 0 ≡ n = omega arith in (subst (λ i. IsPacket size i p) e w, tt)
IsNumbered-append size n (q ∷ ps) p v w =
    let e : n + suc (length ps) ≡ suc n + length ps = omega arith in
    (v.0, IsNumbered-append size (suc n) ps p v.1 (subst (λ i. IsPacket size i p) e w))

IsNumbered-drop :
    (size n k : ℕ) (ps : List (List ℕ))
    → k ≤ length ps
    → IsNumbered size n ps
    → IsNumbered size (n + k) (drop k ps)
IsNumbered-drop size n zero ps h v =
    let e : n ≡ n + 0 = omega arith in subst (λ i. IsNumbered size i ps) e v
IsNumbered-drop size n (suc k) [] h v = tt
IsNumbered-drop size n (suc k) (p ∷ ps) h v =
    let e : suc n + k ≡ n + suc k = omega arith in
    subst (λ i. IsNumbered size i (drop k ps)) e
      (IsNumbered-drop size (suc n) k ps (omega arith) v.1)

drop_past : (k : ℕ) (ps : List (List ℕ)) → length ps ≤ k → drop k ps ≡ []
drop_past zero [] h = refl
drop_past zero (p ∷ ps) h = absurd (omega arith)
drop_past (suc k) [] h = refl
drop_past (suc k) (p ∷ ps) h = drop_past k ps (omega arith)

-- The packets that wait have the numbers just before the next one, in order.
pub record IsInSequence {A : Type 0} (size : ℕ) (s : UdpSender A) : Type 0 where
  pub counted : length s.batch.packets ≤ s.sequence
  pub numbered : IsNumbered size (s.sequence - length s.batch.packets) s.batch.packets

module _ {A : Type 0} (plan : Plan A) where
  pub may_fill-room :
      (s : UdpSender A) (pass : Pass)
      → may_fill plan s pass ≡ true
      → leb max_batch_size (length s.batch.packets) ≡ false
  unfolding may_fill is_full
  may_fill-room s pass h = ground arith

  pub packets-fill_one :
      (s : UdpSender A) (r : Readings)
      → leb max_batch_size (length s.batch.packets) ≡ false
      → (fill_one plan s r).batch.packets
        ≡ s.batch.packets
          ++ ((create_packet_fast s.cache r 0 (as_u32 s.sequence) plan.payload_size).0 ∷ [])
  unfolding fill_one add
  packets-fill_one s r h = rw h

  pub sequence-fill_one :
      (s : UdpSender A) (r : Readings) → (fill_one plan s r).sequence ≡ add64 s.sequence 1
  unfolding fill_one
  sequence-fill_one s r = refl

  fill_one-IsInSequence :
      (s : UdpSender A) (r : Readings)
      → leb max_batch_size (length s.batch.packets) ≡ false
      → s.sequence + 1 < 2 ^ 64
      → IsInSequence plan.payload_size s
      → IsInSequence plan.payload_size (fill_one plan s r)
  fill_one-IsInSequence s r h k v = record {
    counted = omega (arith, l, es, v.counted);
    numbered =
        subst (λ i. IsNumbered plan.payload_size i q.batch.packets) (sym e)
          (subst (λ ps. IsNumbered plan.payload_size n ps) (sym ep)
            (IsNumbered-append plan.payload_size n s.batch.packets p v.numbered
              (subst (λ i. IsPacket plan.payload_size i p) (sym here) w)));
  }
    where
      q : UdpSender A
      q = fill_one plan s r

      p : List ℕ
      p = (create_packet_fast s.cache r 0 (as_u32 s.sequence) plan.payload_size).0

      n : ℕ
      n = s.sequence - length s.batch.packets

      ep : q.batch.packets ≡ s.batch.packets ++ (p ∷ [])
      ep = packets-fill_one s r h

      es : q.sequence ≡ add64 s.sequence 1
      es = sequence-fill_one s r

      l : length q.batch.packets ≡ length s.batch.packets + 1
      l = omega (arith, ap length ep, length-append s.batch.packets (p ∷ []))

      e : q.sequence - length q.batch.packets ≡ n
      e = omega (arith, l, es, v.counted, k)

      here : n + length s.batch.packets ≡ s.sequence
      here = omega (arith, v.counted)

      w : IsPacket plan.payload_size s.sequence p
      w = record {
        timestamp = (get_timestamp s.cache r).0;
        parses =
            parse_packet-create_packet_fast s.cache r 0 (as_u32 s.sequence) plan.payload_size
              (omega arith) (omega arith);
      }

  fill_batch-IsInSequence :
      (s : UdpSender A) (passes : List Pass)
      → s.sequence + length passes < 2 ^ 64
      → IsInSequence plan.payload_size s
      → IsInSequence plan.payload_size (fill_batch plan s passes)
        × ((fill_batch plan s passes).sequence ≤ s.sequence + length passes)
  unfolding fill_batch
  fill_batch-IsInSequence s [] h v = (v, omega arith)
  fill_batch-IsInSequence s (pass ∷ passes) h v = elim (Bool-cases (may_fill plan s pass)) [
    | inr e ↦ rw e (v, omega arith)
    | inl e ↦
        let room = may_fill-room s pass e in
        let one = fill_one-IsInSequence s pass.readings room (omega arith) v in
        let es = sequence-fill_one s pass.readings in
        let (w, l) =
          fill_batch-IsInSequence (fill_one plan s pass.readings) passes (omega (arith, es)) one in
        rw e (w, omega (arith, l, es))
  ]

  drain-IsInSequence :
      (s : UdpSender A) (k : ℕ)
      → IsInSequence plan.payload_size s
      → IsInSequence plan.payload_size (record s { batch = drain k s.batch })
  unfolding drain
  drain-IsInSequence s k v = elim (dec_le k (length s.batch.packets)) [
    | yes h ↦
        let e : s.sequence - length s.batch.packets + k
            ≡ s.sequence - length (drop k s.batch.packets) =
          omega (arith, length-drop k s.batch.packets, v.counted, h) in
        record {
          counted = omega (arith, length-drop k s.batch.packets, v.counted);
          numbered =
              subst (λ i. IsNumbered plan.payload_size i (drop k s.batch.packets)) e
                (IsNumbered-drop plan.payload_size (s.sequence - length s.batch.packets) k
                  s.batch.packets h v.numbered);
        }
    | no nh ↦
        let e = drop_past k s.batch.packets (omega arith) in
        record {
          counted = omega (arith, length-drop k s.batch.packets, v.counted);
          numbered =
              subst
                (λ ps.
                  IsNumbered plan.payload_size (s.sequence - length (drop k s.batch.packets)) ps)
                (sym e) tt;
        }
  ]

  send_round-IsInSequence :
      (s : UdpSender A) (passes : List Pass) (r : Sendmmsg)
      → s.sequence + length passes < 2 ^ 64
      → IsInSequence plan.payload_size s
      → IsInSequence plan.payload_size (send_round plan s passes r).1
        × ((send_round plan s passes r).1.sequence ≤ s.sequence + length passes)
  unfolding send_round
  send_round-IsInSequence s passes r h v =
      let (w, l) = fill_batch-IsInSequence s passes h v in
      let f = fill_batch plan s passes in
      rw (send_mmsg-drain f.batch r) (drain-IsInSequence f (count_of (send_mmsg f.batch r).0) w, l)

  -- The rounds of a test, each the passes through the inner loop and the kernel's answer.
  unfoldable pub send_rounds : UdpSender A → List (List Pass × Sendmmsg) → UdpSender A
  send_rounds s [] = s
  send_rounds s ((passes, r) ∷ rounds) = send_rounds (send_round plan s passes r).1 rounds

  abbrev pub pass_count : List (List Pass × Sendmmsg) → ℕ
  pass_count [] = 0
  pass_count ((passes, r) ∷ rounds) = length passes + pass_count rounds

  -- After any rounds, whatever the kernel takes or refuses, the packets that wait carry the sequence
  -- numbers just before the next one, in order and without a gap, each parsing as a packet of stream
  -- 0 with its number and a payload of zeros; if they did at the start and fewer than 2^64 packets
  -- can have been made.
  pub send_rounds-IsInSequence :
      (s : UdpSender A) (rounds : List (List Pass × Sendmmsg))
      → s.sequence + pass_count rounds < 2 ^ 64
      → IsInSequence plan.payload_size s
      → IsInSequence plan.payload_size (send_rounds s rounds)
  unfolding send_rounds
  send_rounds-IsInSequence s [] h v = v
  send_rounds-IsInSequence s ((passes, r) ∷ rounds) h v =
      let (w, l) = send_round-IsInSequence s passes r (omega arith) v in
      send_rounds-IsInSequence (send_round plan s passes r).1 rounds (omega (arith, l)) w
