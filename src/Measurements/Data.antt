-- ===== src/Measurements/Data.antt =====
-- The records of src/measurements.rs that hold counters. A `Duration` is a number of nanoseconds,
-- and `F` is the type of `f64`.
use rperf3_rs.Base.{
  ℕ, ◌+◌, Option, none, some, List, [], if◌then◌else◌, ◌∷◌, ◌++◌, ◌%◌, ◌^◌, map, ◌≡◌, refl, arith,
  add64, u64_max,
}
use rperf3_rs.Base.Float.{Float}
use rperf3_rs.Measurements.Intervals.{push_back}

pub record StreamStats : Type 0 where
  pub stream_id : ℕ
  pub bytes_sent : ℕ
  pub bytes_received : ℕ
  pub duration : ℕ
  pub retransmits : Option ℕ

-- `StreamStats::new`
unfoldable pub stream_stats_new : ℕ → StreamStats
stream_stats_new stream_id = record {
  stream_id = stream_id;
  bytes_sent = 0;
  bytes_received = 0;
  duration = 0;
  retransmits = none;
}

-- `packets` is `u64::MAX` where there is no count.
pub record IntervalStats (F : Type 0) : Type 0 where
  pub start : ℕ
  pub end : ℕ
  pub bytes : ℕ
  pub bits_per_second : F
  pub packets : ℕ

pub record UdpStats (F : Type 0) : Type 0 where
  pub jitter_ms : F
  pub lost_packets : ℕ
  pub packets : ℕ
  pub lost_percent : F
  pub out_of_order : ℕ

-- `OneWaySendStats`, `OneWayRecvStats` and `ServerOneWayStats`
pub record OneWaySendStats : Type 0 where
  pub bytes_sent : ℕ
  pub packets_sent : ℕ
  pub duration : ℕ

pub record OneWayRecvStats (F : Type 0) : Type 0 where
  pub bytes_received : ℕ
  pub packets_received : ℕ
  pub out_of_order : ℕ
  pub packet_loss : Option F
  pub jitter_ms : F
  pub duration : ℕ

pub record ServerOneWayStats (F : Type 0) : Type 0 where
  pub bytes_received : ℕ
  pub packets_received : ℕ
  pub out_of_order : ℕ
  pub packets_lost : ℕ
  pub packet_loss : Option F
  pub duration : ℕ

-- `start_time` is the reading of an `Instant`.
pub record Measurements (F : Type 0) : Type 0 where
  pub streams : List StreamStats
  pub intervals : List (IntervalStats F)
  pub total_bytes_sent : ℕ
  pub total_bytes_received : ℕ
  pub total_duration : ℕ
  pub total_packets : ℕ
  pub lost_packets : ℕ
  pub out_of_order_packets : ℕ
  pub jitter_ms : F
  pub start_time : Option ℕ

module _ (fl : Float) where
  open fl use {F, of_u64, as_secs, mul, div, lt}

  -- `(bytes as f64 * 8.0) / duration.as_secs_f64()`
  abbrev pub rate_over : ℕ → ℕ → F
  rate_over bytes duration = div (mul (of_u64 bytes) (of_u64 8)) (as_secs duration)

  -- `StreamStats::bits_per_second`
  unfoldable pub stream_bits_per_second : StreamStats → F
  stream_bits_per_second s =
      if lt (of_u64 0) (as_secs s.duration)
      then rate_over (add64 s.bytes_sent s.bytes_received) s.duration
      else of_u64 0

  -- `Measurements::total_bits_per_second`
  unfoldable pub total_bits_per_second : Measurements F → F
  total_bits_per_second m =
      if lt (of_u64 0) (as_secs m.total_duration)
      then rate_over (add64 m.total_bytes_sent m.total_bytes_received) m.total_duration
      else of_u64 0

  -- `UdpStats::default`
  unfoldable pub udp_stats_default : UdpStats F
  udp_stats_default = record {
    jitter_ms = of_u64 0;
    lost_packets = 0;
    packets = 0;
    lost_percent = of_u64 0;
    out_of_order = u64_max;
  }

  -- `Measurements::new`, and `Measurements::with_capacity`, which differs in reserved memory only
  unfoldable pub measurements_new : Measurements F
  measurements_new = record {
    streams = [];
    intervals = [];
    total_bytes_sent = 0;
    total_bytes_received = 0;
    total_duration = 0;
    total_packets = 0;
    lost_packets = 0;
    out_of_order_packets = 0;
    jitter_ms = of_u64 0;
    start_time = none;
  }

abbrev pub set_stream_duration : ℕ → StreamStats → StreamStats
set_stream_duration duration s = record s { duration = duration }

abbrev pub sum_by : (StreamStats → ℕ) → List StreamStats → ℕ
sum_by f [] = 0
sum_by f (s ∷ ss) = f s + sum_by f ss

sum_by-append :
    (f : StreamStats → ℕ) (xs : List StreamStats) (s : StreamStats)
    → sum_by f (xs ++ (s ∷ [])) ≡ sum_by f xs + f s
sum_by-append f [] s = omega arith
sum_by-append f (x ∷ xs) s = omega (arith, sum_by-append f xs s)

sum_by-map :
    (f : StreamStats → ℕ) (g : StreamStats → StreamStats) (xs : List StreamStats)
    → ((s : StreamStats) → f (g s) ≡ f s)
    → sum_by f (map g xs) ≡ sum_by f xs
sum_by-map f g [] e = refl
sum_by-map f g (x ∷ xs) e = omega (arith, sum_by-map f g xs e, e x)

module _ {F : Type 0} where
  -- `Measurements::add_stream`
  unfoldable pub add_stream : Measurements F → StreamStats → Measurements F
  add_stream m stats = record m {
    total_bytes_sent = add64 m.total_bytes_sent stats.bytes_sent;
    total_bytes_received = add64 m.total_bytes_received stats.bytes_received;
    streams = m.streams ++ (stats ∷ []);
  }

  -- `Measurements::add_interval`
  unfoldable pub add_interval : Measurements F → IntervalStats F → Measurements F
  add_interval m interval = record m { intervals = push_back m.intervals interval }

  -- `Measurements::set_duration`, which writes each stream's too
  unfoldable pub set_duration : Measurements F → ℕ → Measurements F
  set_duration m duration = record m {
    total_duration = duration;
    streams = map (set_stream_duration duration) m.streams;
  }

  -- `Measurements::set_start_time`
  unfoldable pub set_start_time : Measurements F → ℕ → Measurements F
  set_start_time m time = record m { start_time = some time }

  -- `Measurements::calculate_udp_loss`
  unfoldable pub snapshot_udp_loss : Measurements F → ℕ × ℕ
  snapshot_udp_loss m = (m.lost_packets, m.total_packets)

  -- The streams that are added one after another.
  unfoldable pub add_streams : Measurements F → List StreamStats → Measurements F
  add_streams m [] = m
  add_streams m (s ∷ ss) = add_streams (add_stream m s) ss

  -- The totals of the measurements are the sums of the streams', modulo 2^64.
  pub record IsSummed (m : Measurements F) : Type 0 where
    pub sent : m.total_bytes_sent ≡ sum_by (λ s. s.bytes_sent) m.streams % 2 ^ 64
    pub received : m.total_bytes_received ≡ sum_by (λ s. s.bytes_received) m.streams % 2 ^ 64

  -- Adding a stream keeps the totals, and so does setting the duration, which reaches every stream.
  pub add_stream-IsSummed :
      (m : Measurements F) (s : StreamStats) → IsSummed m → IsSummed (add_stream m s)
  unfolding add_stream
  add_stream-IsSummed m s v = record {
    sent = omega (arith, sum_by-append (λ s. s.bytes_sent) m.streams s, v.sent);
    received = omega (arith, sum_by-append (λ s. s.bytes_received) m.streams s, v.received);
  }

  pub set_duration-IsSummed :
      (m : Measurements F) (duration : ℕ) → IsSummed m → IsSummed (set_duration m duration)
  unfolding set_duration
  set_duration-IsSummed m duration v =
      let g : StreamStats → StreamStats = set_stream_duration duration in
      record {
        sent = omega (arith, sum_by-map (λ s. s.bytes_sent) g m.streams (λ s. refl), v.sent);
        received =
            omega (arith, sum_by-map (λ s. s.bytes_received) g m.streams (λ s. refl), v.received);
      }
