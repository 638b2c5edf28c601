-- ===== src/Traffic/UdpSend.antt =====
-- The sending UDP loops: `send_udp_data` of src/server.rs once its socket is connected, and
-- `run_udp_send_standard` of src/client.rs up to its results. `sent` are the packets that the socket
-- took, in order.
pub mod Numbers
use rperf3_rs.Base.{
  ℕ, ◌-◌, Option, none, some, List, [], ◌∷◌, ◌++◌, Bool, if◌then◌else◌, ltb, add64, add32, as_u32,
}
use rperf3_rs.Base.Float.{Float}
use rperf3_rs.UdpPacket.{TimestampCache, Readings, create_packet_fast}
use rperf3_rs.TokenBucket.{TokenBucket, consume}
use rperf3_rs.Measurements.Collector.{MeasurementsCollector, record_bytes_sent, record_udp_packet}
use rperf3_rs.Traffic.{
  Plan, Transfer, Clock, Details, Stage, running, ended, run_loop, transfer_new, finish_loop,
}
use rperf3_rs.Traffic.Pacing.{Pacing, pacing_new, pace, bytes_per_sec_of}
use rperf3_rs.Traffic.UdpReceive.{udp_interval, loss_details}

-- A round: the clocks of the packet, what `send` gives, the clocks of the bandwidth limit (at the
-- check, and after a sleep), and those of the report. The server's rounds are not cancelled.
pub record SendRound : Type 0 where
  pub now : ℕ
  pub cancelled : Bool
  pub readings : Readings
  pub outcome : Option ℕ
  pub checked_at : ℕ
  pub paced_at : ℕ
  pub clock : Clock

-- The variables of `send_udp_data`; `sequence` is a u32.
pub record ServerSending (F : Type 0) : Type 0 where
  pub transfer : Transfer F
  pub pacing : Pacing F
  pub sequence : ℕ
  pub cache : TimestampCache
  pub sent : List (List ℕ)

-- The variables of `run_udp_send_standard`; `sequence` is a u64, `slept` the sleeps of the bucket in
-- nanoseconds.
pub record ClientSending (F : Type 0) : Type 0 where
  pub transfer : Transfer F
  pub token_bucket : Option TokenBucket
  pub sequence : ℕ
  pub cache : TimestampCache
  pub slept : List ℕ
  pub sent : List (List ℕ)

-- `bucket.consume(n)`, if there is a bucket: the bucket, and the sleep that it asked for
unfoldable pub consume_some : Option TokenBucket → ℕ → ℕ → ℕ → Option TokenBucket × List ℕ
consume_some none n now woken = (none, [])
consume_some (some b) n now woken = let (b', slept) = consume b n now woken in (some b', slept ∷ [])

-- A packet of `n` bytes that left
unfoldable pub sent_packet : {F : Type 0} → Transfer F → ℕ → Transfer F
sent_packet t n = record t {
  collector = record_udp_packet (record_bytes_sent t.collector 0 n) 0;
  interval_bytes = add64 t.interval_bytes n;
  interval_packets = add64 t.interval_packets 1;
}

-- The UDP columns of the server's sender
unfoldable pub packet_details : {F : Type 0} → Transfer F → Details F
packet_details t = record {
  packets = some t.interval_packets;
  jitter_ms = none;
  lost_packets = none;
  lost_percent = none;
  retransmits = none;
  cwnd = none;
}

module _ (fl : Float) where
  open fl use {F}

  -- The match on the result of `send`, `packet` what was sent and `cache` the clock cache after it
  unfoldable pub on_server_send :
      Plan
      → Option ℕ
      → ServerSending F
      → List ℕ
      → TimestampCache
      → Option ℕ
      → SendRound
      → Stage (ServerSending F)
  on_server_send plan target s packet cache none x = ended (record s { cache = cache })
  on_server_send plan target s packet cache (some n) x =
      let t = sent_packet s.transfer n in
      running (record {
        transfer = udp_interval fl plan t x.clock (packet_details t);
        pacing = pace fl target s.pacing n x.checked_at x.paced_at;
        sequence = add32 s.sequence 1;
        cache = cache;
        sent = s.sent ++ (packet ∷ []);
      })

  -- The body of the loop of `send_udp_data`
  unfoldable pub server_send_step :
      Plan → Option ℕ → ℕ → ServerSending F → SendRound → Stage (ServerSending F)
  server_send_step plan target payload_size s x =
      let (packet, cache) = create_packet_fast s.cache x.readings 0 s.sequence payload_size in
      if ltb (x.now - plan.start) plan.duration
      then on_server_send plan target s packet cache x.outcome x
      else ended s

  unfoldable pub on_client_send :
      Plan
      → ClientSending F
      → List ℕ
      → TimestampCache
      → Option ℕ
      → SendRound
      → Stage (ClientSending F)
  on_client_send plan s packet cache none x = ended (record s { cache = cache })
  on_client_send plan s packet cache (some n) x =
      let t = sent_packet s.transfer n in
      let (bucket, slept) = consume_some s.token_bucket n x.checked_at x.paced_at in
      running (record {
        transfer = udp_interval fl plan t x.clock (loss_details fl t);
        token_bucket = bucket;
        sequence = add64 s.sequence 1;
        cache = cache;
        slept = s.slept ++ slept;
        sent = s.sent ++ (packet ∷ []);
      })

  -- The body of the loop of `run_udp_send_standard`
  unfoldable pub client_send_step : Plan → ℕ → ClientSending F → SendRound → Stage (ClientSending F)
  client_send_step plan payload_size s x =
      let (packet, cache) =
        create_packet_fast s.cache x.readings 0 (as_u32 s.sequence) payload_size in
      if ltb (x.now - plan.start) plan.duration
      then (if x.cancelled then ended s else on_client_send plan s packet cache x.outcome x)
      else ended s

  unfoldable pub server_sending_new :
      Plan → MeasurementsCollector F → TimestampCache → ServerSending F
  server_sending_new plan c cache = record {
    transfer = transfer_new c plan.start;
    pacing = pacing_new fl plan.start;
    sequence = 0;
    cache = cache;
    sent = [];
  }

unfoldable pub client_sending_new :
    {F : Type 0}
    → Plan
    → MeasurementsCollector F
    → Option TokenBucket
    → TimestampCache
    → ClientSending F
client_sending_new plan c bucket cache = record {
  transfer = transfer_new c plan.start;
  token_bucket = bucket;
  sequence = 0;
  cache = cache;
  slept = [];
  sent = [];
}

module _ (fl : Float) where
  open fl use {F}

  -- The loops, from their first round
  unfoldable pub run_server_sending :
      Plan
      → Option ℕ
      → ℕ
      → MeasurementsCollector F
      → TimestampCache
      → List SendRound
      → Stage (ServerSending F)
  run_server_sending plan bandwidth payload_size c cache rounds =
      run_loop (server_send_step fl plan (bytes_per_sec_of bandwidth) payload_size)
        (server_sending_new fl plan c cache) rounds

  unfoldable pub run_client_sending :
      Plan
      → Option TokenBucket
      → ℕ
      → MeasurementsCollector F
      → TimestampCache
      → List SendRound
      → Stage (ClientSending F)
  run_client_sending plan bucket payload_size c cache rounds =
      run_loop (client_send_step fl plan payload_size) (client_sending_new plan c bucket cache)
        rounds

  -- The transfer of a loop, for `finish_loop`
  unfoldable pub server_transfer : Stage (ServerSending F) → Stage (Transfer F)
  server_transfer (running s) = running s.transfer
  server_transfer (ended s) = ended s.transfer

  unfoldable pub client_transfer : Stage (ClientSending F) → Stage (Transfer F)
  client_transfer (running s) = running s.transfer
  client_transfer (ended s) = ended s.transfer

  unfoldable pub send_udp_data :
      Plan
      → Option ℕ
      → ℕ
      → MeasurementsCollector F
      → TimestampCache
      → List SendRound
      → ℕ
      → Option (Transfer F)
  send_udp_data plan bandwidth payload_size c cache rounds ended_at =
      finish_loop plan
        (server_transfer (run_server_sending plan bandwidth payload_size c cache rounds)) ended_at

  unfoldable pub run_udp_send_standard :
      Plan
      → Option TokenBucket
      → ℕ
      → MeasurementsCollector F
      → TimestampCache
      → List SendRound
      → ℕ
      → Option (Transfer F)
  run_udp_send_standard plan bucket payload_size c cache rounds ended_at =
      finish_loop plan
        (client_transfer (run_client_sending plan bucket payload_size c cache rounds)) ended_at
