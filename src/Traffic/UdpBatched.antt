-- ===== src/Traffic/UdpBatched.antt =====
-- The whole loop of `run_udp_send_batched` of src/client.rs, up to its results: batches are filled and
-- sent as in Sender, and recorded. `sent` are the packets that the kernel took, in order.
pub mod Numbers
use rperf3_rs.Base.{
  ℕ, zero, suc, ◌-◌, Option, none, some, List, [], ◌∷◌, ◌++◌, Bool, if◌then◌else◌, ltb, add64, take,
}
use rperf3_rs.Base.Float.{Float}
use rperf3_rs.UdpPacket.{TimestampCache}
use rperf3_rs.TokenBucket.{TokenBucket}
use rperf3_rs.Batch.Send.{
  Sendmmsg, SendResult, sent_ok, send_failed, UdpSendBatch, send_batch_new, send_batch_is_empty,
  send_mmsg,
}
use rperf3_rs.Measurements.Collector.{MeasurementsCollector, record_bytes_sent, record_udp_packet}
use rperf3_rs.Sender
use rperf3_rs.Sender.{UdpSender, Pass, fill_batch}
use rperf3_rs.Traffic.{
  Plan, Transfer, Clock, Stage, running, ended, run_loop, transfer_new, finish_loop,
}
use rperf3_rs.Traffic.UdpReceive.{udp_interval, loss_details}
use rperf3_rs.Traffic.UdpSend.{consume_some}

-- A round: the passes of the inner loop, what sendmmsg answers, and the clocks of the token bucket
-- and of the report.
pub record BatchRound : Type 0 where
  pub now : ℕ
  pub cancelled : Bool
  pub passes : List Pass
  pub result : Sendmmsg
  pub checked_at : ℕ
  pub woken_at : ℕ
  pub clock : Clock

pub record BatchedSending (F A : Type 0) : Type 0 where
  pub sender : UdpSender A
  pub transfer : Transfer F
  pub token_bucket : Option TokenBucket
  pub slept : List ℕ
  pub sent : List (List ℕ)

-- `for _ in 0..packets_sent`
unfoldable pub record_packets : {F : Type 0} → ℕ → MeasurementsCollector F → MeasurementsCollector F
record_packets zero c = c
record_packets (suc n) c = record_packets n (record_udp_packet c 0)

-- A batch of which `n` packets of `bytes` bytes left
unfoldable pub sent_batch : {F : Type 0} → Transfer F → ℕ → ℕ → Transfer F
sent_batch t bytes n = record t {
  collector = record_packets n (record_bytes_sent t.collector 0 bytes);
  interval_bytes = add64 t.interval_bytes bytes;
  interval_packets = add64 t.interval_packets n;
}

module _ (fl : Float) {A : Type 0} where
  open fl use {F}

  -- The match on the result of `batch.send`, `packets` the batch before it
  unfoldable pub on_sent :
      Plan
      → BatchedSending F A
      → UdpSender A
      → List (List ℕ)
      → SendResult
      → BatchRound
      → Stage (BatchedSending F A)
  on_sent plan s sender packets send_failed x = ended (record s { sender = sender })
  on_sent plan s sender packets (sent_ok bytes n) x =
      let t = sent_batch s.transfer bytes n in
      let (bucket, slept) = consume_some s.token_bucket bytes x.checked_at x.woken_at in
      running (record {
        sender = sender;
        transfer = udp_interval fl plan t x.clock (loss_details fl t);
        token_bucket = bucket;
        slept = s.slept ++ slept;
        sent = s.sent ++ take n packets;
      })

  -- A filled batch is sent, if it has packets.
  unfoldable pub send_filled :
      Plan → BatchedSending F A → UdpSender A → BatchRound → Stage (BatchedSending F A)
  send_filled plan s filled x =
      let (result, batch) = send_mmsg filled.batch x.result in
      if send_batch_is_empty filled.batch
      then running (record s { sender = filled })
      else on_sent plan s (record filled { batch = batch }) filled.batch.packets result x

  -- The body of the loop
  unfoldable pub batched_step :
      Plan → Sender.Plan A → BatchedSending F A → BatchRound → Stage (BatchedSending F A)
  batched_step plan sizes s x =
      if ltb (x.now - plan.start) plan.duration
      then (if x.cancelled
          then ended s
          else send_filled plan s (fill_batch sizes s.sender x.passes) x)
      else ended s

unfoldable pub batched_sending_new :
    {F A : Type 0}
    → Plan
    → MeasurementsCollector F
    → Option TokenBucket
    → TimestampCache
    → BatchedSending F A
batched_sending_new plan c bucket cache = record {
  sender = record { batch = send_batch_new; cache = cache; sequence = 0 };
  transfer = transfer_new c plan.start;
  token_bucket = bucket;
  slept = [];
  sent = [];
}

module _ (fl : Float) {A : Type 0} where
  open fl use {F}

  unfoldable pub run_batched_sending :
      Plan
      → Sender.Plan A
      → Option TokenBucket
      → MeasurementsCollector F
      → TimestampCache
      → List BatchRound
      → Stage (BatchedSending F A)
  run_batched_sending plan sizes bucket c cache rounds =
      run_loop (batched_step fl plan sizes) (batched_sending_new plan c bucket cache) rounds

  unfoldable pub batched_transfer : Stage (BatchedSending F A) → Stage (Transfer F)
  batched_transfer (running s) = running s.transfer
  batched_transfer (ended s) = ended s.transfer

  unfoldable pub run_udp_send_batched :
      Plan
      → Sender.Plan A
      → Option TokenBucket
      → MeasurementsCollector F
      → TimestampCache
      → List BatchRound
      → ℕ
      → Option (Transfer F)
  run_udp_send_batched plan sizes bucket c cache rounds ended_at =
      finish_loop plan (batched_transfer (run_batched_sending plan sizes bucket c cache rounds))
        ended_at
