-- ===== src/Sender.antt =====
-- The batched UDP sender of src/client.rs, `run_udp_send_batched`: how large its packets and batches
-- are, how it fills a batch, and the rounds of filling and sending.
pub mod Sequence
mod Tests
use rperf3_rs.Base.{
  ℕ, suc, ◌-◌, ◌/◌, ◌*◌, max, Option, none, some, List, [], ◌∷◌, Bool, not, ◌&&◌, if◌then◌else◌,
  ltb, length, as_u32, as_u64, add64,
}
use rperf3_rs.UdpPacket.{TimestampCache, Readings, header_size, create_packet_fast}
use rperf3_rs.TokenBucket.{TokenBucket}
use rperf3_rs.Batch.Send.{
  UdpSendBatch, Sendmmsg, SendResult, max_batch_size, add, is_full, send_batch_len, send_mmsg,
}

-- The payload of a packet: the buffer less the header, or 1024
unfoldable pub payload_size_of : ℕ → ℕ
payload_size_of buffer_size =
    if ltb header_size buffer_size then buffer_size - header_size else 1024

-- The packets of a batch, by the limit of the bandwidth
unfoldable pub adaptive_batch_size : Option TokenBucket → ℕ → ℕ
adaptive_batch_size none payload_size = max_batch_size
adaptive_batch_size (some bucket) payload_size =
    let packets_per_sec = bucket.bytes_per_sec / as_u64 payload_size in
    if ltb packets_per_sec 1000
    then max (max_batch_size / 4) 4
    else if ltb packets_per_sec 10000
    then max_batch_size / 2
    else max_batch_size

-- The sender's variables, `A` the type of addresses.
pub record UdpSender (A : Type 0) : Type 0 where
  pub batch : UdpSendBatch A
  pub cache : TimestampCache
  pub sequence : ℕ

-- The clocks of a pass through the inner loop: the time since the start, and those of the packet.
pub record Pass : Type 0 where
  pub since_start : ℕ
  pub readings : Readings

-- What the loop does not change: the size of a batch and a payload, the duration, and the address.
pub record Plan (A : Type 0) : Type 0 where
  pub batch_size : ℕ
  pub payload_size : ℕ
  pub duration : ℕ
  pub remote_addr : A

module _ {A : Type 0} (plan : Plan A) where
  -- The condition of the inner loop
  unfoldable pub may_fill : UdpSender A → Pass → Bool
  may_fill s pass =
      not (is_full s.batch)
      && ltb (send_batch_len s.batch) plan.batch_size
      && ltb pass.since_start plan.duration

  -- The body of the inner loop
  unfoldable pub fill_one : UdpSender A → Readings → UdpSender A
  fill_one s readings =
      let (packet, cache) =
        create_packet_fast s.cache readings 0 (as_u32 s.sequence) plan.payload_size in
      record {
        batch = (add s.batch packet plan.remote_addr).1;
        cache = cache;
        sequence = add64 s.sequence 1;
      }

  -- The inner loop, over the passes that the clock allows
  unfoldable pub fill_batch : UdpSender A → List Pass → UdpSender A
  fill_batch s [] = s
  fill_batch s (pass ∷ passes) =
      let rest = fill_batch (fill_one s pass.readings) passes in if may_fill s pass then rest else s

  -- A round: the batch is filled, and then sent.
  unfoldable pub send_round : UdpSender A → List Pass → Sendmmsg → SendResult × UdpSender A
  send_round s passes r =
      let filled = fill_batch s passes in
      let (result, batch) = send_mmsg filled.batch r in (result, record filled { batch = batch })
