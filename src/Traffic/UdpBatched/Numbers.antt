-- ===== src/Traffic/UdpBatched/Numbers.antt =====
-- The packets that the batched sender of src/client.rs has sent, and those that wait.
use rperf3_rs.Base.{
  ℕ, ◌+◌, ◌-◌, ◌%◌, ◌^◌, ◌≡◌, refl, ap, sym, subst, ◌∙◌, Option, List, [], ◌∷◌, ◌++◌, false, leb,
  ltb, arith, length, length-append, take, drop, take-append-drop, append_assoc, as_u32, Bool-cases,
  inl, inr,
}
use rperf3_rs.Base.Float.{Float}
use rperf3_rs.UdpPacket.{TimestampCache, Readings, create_packet_fast}
use rperf3_rs.TokenBucket.{TokenBucket}
use rperf3_rs.Batch.Send.{
  SendResult, sent_ok, send_failed, send_batch_new, send_batch_is_empty, send_mmsg, drain,
  max_batch_size,
}
use rperf3_rs.Batch.Send.Order.{count_of, send_mmsg-drain}
use rperf3_rs.Measurements.Collector.{MeasurementsCollector}
use rperf3_rs.Sender
use rperf3_rs.Sender.{UdpSender, Pass, may_fill, fill_one, fill_batch}
use rperf3_rs.Sender.Sequence.{
  IsNumbered, IsNumbered-append, may_fill-room, packets-fill_one, sequence-fill_one,
}
use rperf3_rs.Traffic.{Plan, ended, run_loop-keeps_any, state_of, if_keeps}
use rperf3_rs.Traffic.UdpSend.Numbers.{create_packet_fast-IsPacket}
use rperf3_rs.Traffic.UdpBatched.{
  BatchRound, BatchedSending, on_sent, send_filled, batched_step, batched_sending_new,
  run_batched_sending,
}

-- What left and then what waits are the packets from 0 on, and the next number is their count.
pub record IsContinued {A : Type 0} (size : ℕ) (sent : List (List ℕ)) (s : UdpSender A)
    : Type 0 where
  pub numbered : IsNumbered size 0 (sent ++ s.batch.packets)
  pub sequence : s.sequence ≡ length (sent ++ s.batch.packets) % 2 ^ 64

module _ {A : Type 0} (sizes : Sender.Plan A) (sent : List (List ℕ)) where
  fill_one-IsContinued :
      (s : UdpSender A) (r : Readings)
      → leb max_batch_size (length s.batch.packets) ≡ false
      → IsContinued sizes.payload_size sent s
      → IsContinued sizes.payload_size sent (fill_one sizes s r)
  fill_one-IsContinued s r h v =
      let ps = s.batch.packets in
      let p = (create_packet_fast s.cache r 0 (as_u32 s.sequence) sizes.payload_size).0 in
      let e : (fill_one sizes s r).batch.packets ≡ ps ++ (p ∷ []) = packets-fill_one sizes s r h in
      let f : sent ++ (fill_one sizes s r).batch.packets ≡ (sent ++ ps) ++ (p ∷ []) =
        ap (λ qs. sent ++ qs) e ∙ sym (append_assoc sent ps (p ∷ [])) in
      let n : as_u32 s.sequence ≡ as_u32 (0 + length (sent ++ ps)) = omega (arith, v.sequence) in
      let w =
        create_packet_fast-IsPacket s.cache r (as_u32 s.sequence) (0 + length (sent ++ ps))
          sizes.payload_size n in
      record {
        numbered =
            subst (IsNumbered sizes.payload_size 0) (sym f)
              (IsNumbered-append sizes.payload_size 0 (sent ++ ps) p v.numbered w);
        sequence = omega (
          arith,
          sequence-fill_one sizes s r,
          v.sequence,
          ap length f,
          length-append (sent ++ ps) (p ∷ []),
        );
      }

  fill_batch-IsContinued :
      (s : UdpSender A) (passes : List Pass)
      → IsContinued sizes.payload_size sent s
      → IsContinued sizes.payload_size sent (fill_batch sizes s passes)
  unfolding fill_batch
  fill_batch-IsContinued s [] v = v
  fill_batch-IsContinued s (pass ∷ passes) v = elim (Bool-cases (may_fill sizes s pass)) [
    | inr e ↦ rw e v
    | inl e ↦
        let w = fill_one-IsContinued s pass.readings (may_fill-room sizes s pass e) v in
        rw e (fill_batch-IsContinued (fill_one sizes s pass.readings) passes w)
  ]

-- What is drained from the batch is what left.
drain-IsContinued :
    {A : Type 0} (size n : ℕ) (sent : List (List ℕ)) (s : UdpSender A)
    → IsContinued size sent s
    → IsContinued size (sent ++ take n s.batch.packets) (record s { batch = drain n s.batch })
unfolding drain
drain-IsContinued size n sent s v =
    let ps = s.batch.packets in
    let e : (sent ++ take n ps) ++ drop n ps ≡ sent ++ ps =
      append_assoc sent (take n ps) (drop n ps) ∙ ap (λ qs. sent ++ qs) (take-append-drop n ps) in
    record {
      numbered = subst (IsNumbered size 0) (sym e) v.numbered;
      sequence = v.sequence ∙ ap (λ ps. length ps % 2 ^ 64) (sym e);
    }

module _ (fl : Float) (plan : Plan) {A : Type 0} (sizes : Sender.Plan A) where
  open fl use {F}

  abbrev pub IsSending : BatchedSending F A → Type 0
  IsSending s = IsContinued sizes.payload_size s.sent s.sender

  on_sent-IsSending :
      (s : BatchedSending F A) (filled : UdpSender A) (r : SendResult) (x : BatchRound)
      → IsContinued sizes.payload_size s.sent filled
      → IsSending (
          state_of (
            on_sent fl plan s
              (record filled { batch = drain (count_of r) filled.batch })
              filled.batch.packets
              r
              x))
  unfolding on_sent drain
  on_sent-IsSending s filled send_failed x v = v
  on_sent-IsSending s filled (sent_ok bytes n) x v =
      drain-IsContinued sizes.payload_size n s.sent filled v

  send_filled-IsSending :
      (s : BatchedSending F A) (filled : UdpSender A) (x : BatchRound)
      → IsContinued sizes.payload_size s.sent filled
      → IsSending (state_of (send_filled fl plan s filled x))
  unfolding send_filled
  send_filled-IsSending s filled x v = if_keeps IsSending (send_batch_is_empty filled.batch) _ _ v (
      rw (send_mmsg-drain filled.batch x.result)
        (on_sent-IsSending s filled (send_mmsg filled.batch x.result).0 x v))

  batched_step-IsSending :
      (s : BatchedSending F A) (x : BatchRound)
      → IsSending s
      → IsSending (state_of (batched_step fl plan sizes s x))
  unfolding batched_step
  batched_step-IsSending s x v =
      if_keeps IsSending (ltb (x.now - plan.start) plan.duration) _ (ended s)
        (if_keeps IsSending x.cancelled (ended s) _ v (
          send_filled-IsSending s (fill_batch sizes s.sender x.passes) x
            (fill_batch-IsContinued sizes s.sent s.sender x.passes v)))
        v

  -- Wherever the batched sender stands, whatever the kernel took of each batch, what left and then
  -- what waits are the packets 0, 1, 2, .. in order.
  pub run_batched_sending-IsSending :
      (bucket : Option TokenBucket) (c : MeasurementsCollector F) (cache : TimestampCache)
      (rounds : List BatchRound)
      → IsSending (state_of (run_batched_sending fl plan sizes bucket c cache rounds))
  unfolding run_batched_sending batched_sending_new send_batch_new
  run_batched_sending-IsSending bucket c cache rounds =
      run_loop-keeps_any (batched_step fl plan sizes) IsSending batched_step-IsSending
        (batched_sending_new plan c bucket cache) rounds (record { numbered = tt; sequence = refl })
