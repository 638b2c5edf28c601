-- ===== src/OneWayClient.antt =====
-- The one-way tests of src/client.rs: `send_one_way`, the batched `send_one_way_with_offset` on Linux,
-- and `recv_one_way`. Opening the sockets is left out.
pub mod Delivery
pub mod Magic
mod Tests
use rperf3_rs.Base.{
  ℕ, zero, suc, ◌+◌, ◌-◌, ◌*◌, ◌/◌, ◌^◌, Option, none, some, List, [], ◌∷◌, ◌++◌, Bool, true, false,
  ◌&&◌, if◌then◌else◌, ltb, leb, length, take, copy_at, replicate, add64, add32, as_u32, mul64,
  u32_to_be, u32_from_be, min,
}
use rperf3_rs.Base.Float.{Float}
use rperf3_rs.TokenBucket.{TokenBucket}
use rperf3_rs.Measurements.Data.{OneWaySendStats, OneWayRecvStats}
use rperf3_rs.Traffic.{Stage, running, ended, run_loop}
use rperf3_rs.Traffic.UdpSend.{consume_some}

-- The variables of `send_one_way`; `sent` are the packets that the socket took, and `is_failed` whether
-- the loop was left by an error, which is returned; its variables are then dropped.
pub record OneWaySender : Type 0 where
  pub buffer : List ℕ
  pub seq : ℕ
  pub bytes_sent : ℕ
  pub packets_sent : ℕ
  pub token_bucket : Option TokenBucket
  pub slept : List ℕ
  pub sent : List (List ℕ)
  pub is_failed : Bool

-- A round: what `send_to` gives, and the clocks of the token bucket.
pub record SendRound : Type 0 where
  pub now : ℕ
  pub outcome : Option ℕ
  pub checked_at : ℕ
  pub woken_at : ℕ

unfoldable pub sender_new : List ℕ → Option TokenBucket → OneWaySender
sender_new buffer bucket = record {
  buffer = buffer;
  seq = 0;
  bytes_sent = 0;
  packets_sent = 0;
  token_bucket = bucket;
  slept = [];
  sent = [];
  is_failed = false;
}

-- The sequence number and the stream id in the first eight bytes
unfoldable pub stamp : List ℕ → ℕ → ℕ → List ℕ
stamp buffer seq stream_id = copy_at (copy_at buffer 0 (u32_to_be seq)) 4 (u32_to_be stream_id)

unfoldable pub on_send : OneWaySender → List ℕ → Option ℕ → SendRound → Stage OneWaySender
on_send s packet none x = ended (record s { buffer = packet; is_failed = true })
on_send s packet (some n) x =
    let (bucket, slept) = consume_some s.token_bucket (length packet) x.checked_at x.woken_at in
    running (record {
      buffer = packet;
      seq = add32 s.seq 1;
      bytes_sent = add64 s.bytes_sent n;
      packets_sent = add64 s.packets_sent 1;
      token_bucket = bucket;
      slept = s.slept ++ slept;
      sent = s.sent ++ (packet ∷ []);
      is_failed = false;
    })

-- The body of the loop of `send_one_way`, from `start` for `duration`
unfoldable pub send_one_way_step : ℕ → ℕ → OneWaySender → SendRound → Stage OneWaySender
send_one_way_step start duration s x =
    if ltb (x.now - start) duration then on_send s (stamp s.buffer s.seq 0) x.outcome x else ended s

-- `send_one_way`: `none` is the panic on a buffer of fewer than eight bytes in the loop's first round;
-- a loop over no time does not get there
unfoldable pub send_one_way :
    ℕ → ℕ → List ℕ → Option TokenBucket → List SendRound → Option (Stage OneWaySender)
send_one_way start duration buffer bucket [] = some (running (sender_new buffer bucket))
send_one_way start duration buffer bucket (x ∷ xs) =
    if ltb (length buffer) 8 && ltb (x.now - start) duration
    then none
    else some (run_loop (send_one_way_step start duration) (sender_new buffer bucket) (x ∷ xs))

unfoldable pub send_stats : OneWaySender → ℕ → OneWaySendStats
send_stats s elapsed = record {
  bytes_sent = s.bytes_sent;
  packets_sent = s.packets_sent;
  duration = elapsed;
}

-- The variables of the thread of `send_one_way_with_offset`, whose packets are made anew in each round.
pub record OffsetSender : Type 0 where
  pub seq : ℕ
  pub total_bytes : ℕ
  pub total_packets : ℕ
  pub sent : List (List ℕ)

-- What its sendmmsg returns.
pub data Answer : Type 0 where
  took : ℕ → Answer
  would_block other_error : Answer

pub record OffsetRound : Type 0 where
  pub elapsed : ℕ
  pub answer : Answer

-- `for i in 0..BATCH`: the packets with the numbers from `seq` on, by the rounds left
unfoldable pub stamped : ℕ → ℕ → ℕ → ℕ → List (List ℕ)
stamped payload_size stream_id seq zero = []
stamped payload_size stream_id seq (suc n) =
    stamp (replicate payload_size 0) seq stream_id ∷ stamped payload_size stream_id (add32 seq 1) n

unfoldable pub on_answer : ℕ → OffsetSender → List (List ℕ) → Answer → Stage OffsetSender
on_answer payload_size s packets (took n) = running (record s {
  total_bytes = add64 s.total_bytes (mul64 n payload_size);
  total_packets = add64 s.total_packets n;
  sent = s.sent ++ take n packets;
})
on_answer payload_size s packets would_block = running s
on_answer payload_size s packets other_error = ended s

-- The body of its loop: the number goes on by 64, whatever the kernel took
unfoldable pub offset_step : ℕ → ℕ → ℕ → OffsetSender → OffsetRound → Stage OffsetSender
offset_step payload_size stream_id duration s x =
    if ltb x.elapsed duration
    then on_answer payload_size (record s { seq = add32 s.seq 64 })
        (stamped payload_size stream_id s.seq 64) x.answer
    else ended s

-- `recv_one_way`
pub record OneWayReceiver (F : Type 0) : Type 0 where
  pub bytes_received : ℕ
  pub packets_received : ℕ
  pub out_of_order : ℕ
  pub last_seq : ℕ
  pub jitter_samples : List F
  pub last_arrival_time : Option ℕ

-- A round: the clock at its start, the datagram, if there is no error, and the clock after it
pub record RecvRound : Type 0 where
  pub now : ℕ
  pub datagram : Option (List ℕ)
  pub arrived_at : ℕ

unfoldable pub one_way_receiver_new : {F : Type 0} → OneWayReceiver F
one_way_receiver_new = record {
  bytes_received = 0;
  packets_received = 0;
  out_of_order = 0;
  last_seq = 0;
  jitter_samples = [];
  last_arrival_time = none;
}

-- The four bytes at the start of the buffer, if as many were received
unfoldable pub first_seq : List ℕ → Option ℕ
first_seq bytes = if leb 4 (length bytes) then u32_from_be (take 4 bytes) else none

unfoldable pub order_check : {F : Type 0} → OneWayReceiver F → Option ℕ → OneWayReceiver F
order_check r none = r
order_check r (some seq) = record r {
  out_of_order =
      if ltb 0 r.last_seq && ltb seq r.last_seq then add64 r.out_of_order 1 else r.out_of_order;
  last_seq = seq;
}

module _ (fl : Float) where
  open fl use {F, of_u64, as_secs, add, sub, mul, div, abs}

  -- `jitter_samples.last().unwrap_or(&0.0)`
  unfoldable pub last_sample : List F → F
  last_sample [] = of_u64 0
  last_sample (j ∷ []) = j
  last_sample (j ∷ k ∷ js) = last_sample (k ∷ js)

  unfoldable pub next_samples : List F → Option ℕ → ℕ → List F
  next_samples samples none now = samples
  next_samples samples (some prev) now =
      let transit = as_secs (now - prev) in
      let curr_jitter = last_sample samples in
      samples ++ (add curr_jitter (div (abs (sub transit curr_jitter)) (of_u64 16)) ∷ [])

  unfoldable pub receive_bytes : OneWayReceiver F → List ℕ → ℕ → OneWayReceiver F
  receive_bytes r bytes now =
      let counted = record r {
        bytes_received = add64 r.bytes_received (length bytes);
        packets_received = add64 r.packets_received 1;
      } in
      let checked = order_check counted (first_seq bytes) in
      record checked {
        jitter_samples = next_samples checked.jitter_samples checked.last_arrival_time now;
        last_arrival_time = some now;
      }

  -- The body of the loop; the Boolean says whether there was no error, which is returned
  unfoldable pub on_datagram :
      OneWayReceiver F → Option (List ℕ) → ℕ → Stage (Bool × OneWayReceiver F)
  on_datagram r none now = ended (false, r)
  on_datagram r (some bytes) now = running (true, receive_bytes r bytes now)

  unfoldable pub recv_one_way_step :
      ℕ → ℕ → Bool × OneWayReceiver F → RecvRound → Stage (Bool × OneWayReceiver F)
  recv_one_way_step start duration s x =
      if ltb (x.now - start) duration then on_datagram s.1 x.datagram x.arrived_at else ended s

  -- The loss against the rate that is expected, `duration` in nanoseconds
  unfoldable pub expected_loss : Option ℕ → ℕ → ℕ → Option F
  expected_loss none duration packets_received = none
  expected_loss (some pps) duration packets_received =
      let expected = mul64 pps (duration / 10 ^ 9) in
      some (
        if ltb expected packets_received
        then of_u64 0
        else if ltb 0 expected
        then mul (div (of_u64 (expected - packets_received)) (of_u64 expected)) (of_u64 100)
        else of_u64 0)

  unfoldable pub sum_samples : F → List F → F
  sum_samples s [] = s
  sum_samples s (j ∷ js) = sum_samples (add s j) js

  unfoldable pub average_jitter : List F → F
  average_jitter [] = of_u64 0
  average_jitter (j ∷ js) =
      mul (div (sum_samples (of_u64 0) (j ∷ js)) (of_u64 (length (j ∷ js)))) (of_u64 1000)

  unfoldable pub recv_stats : OneWayReceiver F → Option ℕ → ℕ → ℕ → OneWayRecvStats F
  recv_stats r expected_pps duration elapsed = record {
    bytes_received = r.bytes_received;
    packets_received = r.packets_received;
    out_of_order = r.out_of_order;
    packet_loss = expected_loss expected_pps duration r.packets_received;
    jitter_ms = average_jitter r.jitter_samples;
    duration = elapsed;
  }
