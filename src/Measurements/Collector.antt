-- ===== src/Measurements/Collector.antt =====
-- `MeasurementsCollector` of src/measurements.rs: the mutex-guarded records and the atomic counters.
-- An `Arc` to a stream is its index in the vector, which only grows.
pub mod Atomic
pub mod Loss
use rperf3_rs.Base.{
  ℕ, zero, suc, ◌+◌, ◌-◌, ◌≡◌, refl, List, [], ◌∷◌, ◌++◌, map, Option, none, some, Bool, true,
  false, if◌then◌else◌, ◌==◌, ltb, leb, length, add64, u64_max,
}
use rperf3_rs.Base.Float.{Float}
use rperf3_rs.Measurements.Data.{
  StreamStats, IntervalStats, Measurements, measurements_new, add_interval, set_duration,
  set_start_time,
}

pub record PerStreamMeasurements : Type 0 where
  pub stream_id : ℕ
  pub bytes_sent : ℕ
  pub bytes_received : ℕ
  pub packets : ℕ

-- `PerStreamMeasurements::new`
unfoldable pub per_stream_new : ℕ → PerStreamMeasurements
per_stream_new stream_id = record {
  stream_id = stream_id;
  bytes_sent = 0;
  bytes_received = 0;
  packets = 0;
}

-- `to_stream_stats`
unfoldable pub to_stream_stats : ℕ → PerStreamMeasurements → StreamStats
to_stream_stats duration s = record {
  stream_id = s.stream_id;
  bytes_sent = s.bytes_sent;
  bytes_received = s.bytes_received;
  duration = duration;
  retransmits = none;
}

pub record UdpPacketState (F : Type 0) : Type 0 where
  pub last_sequence : Option ℕ
  pub max_sequence : Option ℕ
  pub received_count : ℕ
  pub last_arrival_us : Option ℕ
  pub last_send_timestamp_us : Option ℕ
  pub jitter_ms : F
  pub out_of_order : ℕ

pub record MeasurementsCollector (F : Type 0) : Type 0 where
  pub inner : Measurements F
  pub udp_state : UdpPacketState F
  pub per_stream : List PerStreamMeasurements
  pub atomic_bytes_sent : ℕ
  pub atomic_bytes_received : ℕ
  pub atomic_packets : ℕ

-- `streams.iter().find(|s| s.stream_id == stream_id)`, as a position
unfoldable pub find_stream : List PerStreamMeasurements → ℕ → Option ℕ
find_stream [] stream_id = none
find_stream (s ∷ ss) stream_id =
    let rest = find_stream ss stream_id in
    if s.stream_id == stream_id then some 0 else elim rest [ none ↦ none | some i ↦ some (suc i) ]

-- A change of the stream at a position.
unfoldable pub update_at :
    ℕ
    → (PerStreamMeasurements → PerStreamMeasurements)
    → List PerStreamMeasurements
    → List PerStreamMeasurements
update_at i f [] = []
update_at zero f (s ∷ ss) = f s ∷ ss
update_at (suc i) f (s ∷ ss) = s ∷ update_at i f ss

unfoldable pub sent_by : ℕ → PerStreamMeasurements → PerStreamMeasurements
sent_by bytes s = record s { bytes_sent = add64 s.bytes_sent bytes }

unfoldable pub received_by : ℕ → PerStreamMeasurements → PerStreamMeasurements
received_by bytes s = record s { bytes_received = add64 s.bytes_received bytes }

unfoldable pub one_packet : PerStreamMeasurements → PerStreamMeasurements
one_packet s = record s { packets = add64 s.packets 1 }

-- `streams.iter().find(..).cloned()`
unfoldable pub find_stats : List StreamStats → ℕ → Option StreamStats
find_stats [] stream_id = none
find_stats (s ∷ ss) stream_id =
    let rest = find_stats ss stream_id in if s.stream_id == stream_id then some s else rest

module _ {F : Type 0} where
  -- The handle of the stream that was found, or of a new one, and the collector in which it is.
  unfoldable pub create_unless_found :
      MeasurementsCollector F → ℕ → Option ℕ → ℕ × MeasurementsCollector F
  create_unless_found c stream_id (some i) = (i, c)
  create_unless_found c stream_id none = (
    length c.per_stream,
    record c { per_stream = c.per_stream ++ (per_stream_new stream_id ∷ []) },
  )

  unfoldable pub get_or_create_stream : MeasurementsCollector F → ℕ → ℕ × MeasurementsCollector F
  get_or_create_stream c stream_id =
      create_unless_found c stream_id (find_stream c.per_stream stream_id)

  unfoldable pub on_stream :
      MeasurementsCollector F
      → ℕ
      → (PerStreamMeasurements → PerStreamMeasurements)
      → MeasurementsCollector F
  on_stream c i f = record c { per_stream = update_at i f c.per_stream }

  unfoldable pub record_bytes_sent : MeasurementsCollector F → ℕ → ℕ → MeasurementsCollector F
  record_bytes_sent c stream_id bytes =
      let c1 = record c { atomic_bytes_sent = add64 c.atomic_bytes_sent bytes } in
      let (stream, c2) = get_or_create_stream c1 stream_id in on_stream c2 stream (sent_by bytes)

  unfoldable pub record_bytes_received : MeasurementsCollector F → ℕ → ℕ → MeasurementsCollector F
  record_bytes_received c stream_id bytes =
      let c1 = record c { atomic_bytes_received = add64 c.atomic_bytes_received bytes } in
      let (stream, c2) = get_or_create_stream c1 stream_id in
      on_stream c2 stream (received_by bytes)

  unfoldable pub record_udp_packet : MeasurementsCollector F → ℕ → MeasurementsCollector F
  record_udp_packet c stream_id =
      let c1 = record c { atomic_packets = add64 c.atomic_packets 1 } in
      let (stream, c2) = get_or_create_stream c1 stream_id in on_stream c2 stream one_packet

  -- `MeasurementsCollector::add_interval`, `set_duration`, `set_start_time`
  unfoldable pub collect_interval :
      MeasurementsCollector F → IntervalStats F → MeasurementsCollector F
  collect_interval c interval = record c { inner = add_interval c.inner interval }

  unfoldable pub collect_duration : MeasurementsCollector F → ℕ → MeasurementsCollector F
  collect_duration c duration = record c { inner = set_duration c.inner duration }

  unfoldable pub collect_start_time : MeasurementsCollector F → ℕ → MeasurementsCollector F
  collect_start_time c time = record c { inner = set_start_time c.inner time }

  unfoldable pub sync_atomic_counters : MeasurementsCollector F → MeasurementsCollector F
  sync_atomic_counters c = record c {
    inner = record (c.inner) {
      total_bytes_sent = c.atomic_bytes_sent;
      total_bytes_received = c.atomic_bytes_received;
      total_packets = c.atomic_packets;
    };
  }

  -- `MeasurementsCollector::calculate_udp_loss`: lost and expected
  unfoldable pub calculate_udp_loss : MeasurementsCollector F → ℕ × ℕ
  calculate_udp_loss c = elim c.udp_state.max_sequence [
    | none ↦ (0, 0)
    | some max_seq ↦
        let expected = add64 max_seq 1 in (expected - c.udp_state.received_count, expected)
  ]

  unfoldable pub record_udp_loss : MeasurementsCollector F → ℕ → MeasurementsCollector F
  record_udp_loss c lost = record c {
    inner = record (c.inner) { lost_packets = add64 c.inner.lost_packets lost };
  }

  -- `MeasurementsCollector::get`
  unfoldable pub get : MeasurementsCollector F → Measurements F
  get c =
      let m : Measurements F = record (c.inner) {
        total_bytes_sent = c.atomic_bytes_sent;
        total_bytes_received = c.atomic_bytes_received;
        total_packets = c.atomic_packets;
        streams = map (to_stream_stats c.inner.total_duration) c.per_stream;
      } in
      let (lost, expected) = calculate_udp_loss c in
      if ltb 0 m.total_bytes_received
      then record m { lost_packets = lost; total_packets = expected }
      else m

  unfoldable pub get_stream_stats : MeasurementsCollector F → ℕ → Option StreamStats
  get_stream_stats c stream_id = find_stats c.inner.streams stream_id

module _ (fl : Float) where
  open fl use {F, of_u64, decimal, add, sub, mul, div, eq}

  -- `UdpPacketState::default`
  unfoldable pub udp_state_default : UdpPacketState F
  udp_state_default = record {
    last_sequence = none;
    max_sequence = none;
    received_count = 0;
    last_arrival_us = none;
    last_send_timestamp_us = none;
    jitter_ms = of_u64 0;
    out_of_order = 0;
  }

  -- `MeasurementsCollector::new`, and `with_capacity`, which differs in reserved memory only
  unfoldable pub collector_new : MeasurementsCollector F
  collector_new = record {
    inner = measurements_new fl;
    udp_state = udp_state_default;
    per_stream = [];
    atomic_bytes_sent = 0;
    atomic_bytes_received = 0;
    atomic_packets = 0;
  }

  unfoldable pub update_jitter : MeasurementsCollector F → F → MeasurementsCollector F
  update_jitter c jitter = record c {
    inner = record (c.inner) {
      jitter_ms =
          if eq c.inner.jitter_ms (of_u64 0)
          then jitter
          else add (mul c.inner.jitter_ms (decimal 875 3)) (mul jitter (decimal 125 3));
    };
  }

  -- The greatest sequence number so far.
  unfoldable pub track_max : Option ℕ → ℕ → Option ℕ
  track_max none sequence = some sequence
  track_max (some max) sequence = if ltb max sequence then some sequence else some max

  -- Whether a packet comes after one of a greater number.
  unfoldable pub is_late : Option ℕ → ℕ → Bool
  is_late none sequence = false
  is_late (some last_seq) sequence = ltb sequence last_seq

  -- `abs_diff`
  abbrev pub abs_diff : ℕ → ℕ → ℕ
  abs_diff a b = (a - b) + (b - a)

  -- The jitter estimate after a packet, `none` for the first packet.
  unfoldable pub next_jitter : UdpPacketState F → ℕ → ℕ → Option F
  next_jitter s send recv = go s.last_arrival_us s.last_send_timestamp_us
    where
      go : Option ℕ → Option ℕ → Option F
      go (some last_arrival) (some last_send) =
          let transit_delta = abs_diff (recv - send) (last_arrival - last_send) in
          some (add s.jitter_ms (div (sub (of_u64 transit_delta) s.jitter_ms) (of_u64 16)))
      go _ _ = none

  -- What `record_udp_packet_received` does under both locks.
  unfoldable pub receive_packet : MeasurementsCollector F → ℕ → ℕ → ℕ → MeasurementsCollector F
  receive_packet c sequence send recv =
      let s = c.udp_state in
      let m = c.inner in
      let late = is_late s.last_sequence sequence in
      let jitter = next_jitter s send recv in
      record c {
        udp_state = record {
          last_sequence = some sequence;
          max_sequence = track_max s.max_sequence sequence;
          received_count = add64 s.received_count 1;
          last_arrival_us = some recv;
          last_send_timestamp_us = some send;
          jitter_ms = elim jitter [ none ↦ s.jitter_ms | some j ↦ j ];
          out_of_order = if late then add64 s.out_of_order 1 else s.out_of_order;
        };
        inner = record m {
          out_of_order_packets =
              if late then add64 m.out_of_order_packets 1 else m.out_of_order_packets;
          jitter_ms = elim jitter [ none ↦ m.jitter_ms | some j ↦ div j (of_u64 1000) ];
        };
      }

  unfoldable pub record_udp_packet_received :
      MeasurementsCollector F → ℕ → ℕ → ℕ → MeasurementsCollector F
  record_udp_packet_received c sequence send recv =
      if sequence == u64_max then c else receive_packet c sequence send recv
