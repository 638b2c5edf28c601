-- ===== src/Measurements/Report.antt =====
-- `get_detailed_results` of src/measurements.rs and what it builds. The package version, the
-- platform, the clock and the random cookie are arguments.
pub mod Types
pub mod Totals
pub mod Intervals
mod Tests
use rperf3_rs.Base.{
  ℕ, ◌+◌, ◌-◌, List, [], ◌∷◌, map, Option, none, some, Bool, true, false, if◌then◌else◌, ◌==◌, ltb,
  leb, add64, u64_max,
}
use rperf3_rs.Base.Try.{◌>>=◌}
use rperf3_rs.Base.Int.{ℤ}
use rperf3_rs.Base.Text.{String, codes, eq_codes, to_upper_ascii}
use rperf3_rs.Base.Float.{Float}
use rperf3_rs.Measurements.Data.{IntervalStats, Measurements, total_bits_per_second, rate_over}
use rperf3_rs.Measurements.TcpStats.{tcp_stats_default}
use rperf3_rs.Measurements.Collector.{MeasurementsCollector, calculate_udp_loss}
use rperf3_rs.Measurements.Report.Types.{
  ConnectionInfo, TestConfig, SystemInfo, DetailedIntervalStats, UdpIntervalStats, StreamSummary,
  UdpStreamSummary, UdpSum, TestStartInfo, TimestampInfo, ConnectingTo, IntervalData, tcp_interval,
  udp_interval, TestEndInfo, tcp_end, udp_end, EndStreamInfo, DetailedTestResults,
}

-- What the code reads from its environment: "rperf3 VERSION", "OS ARCH", the time as text and in
-- seconds, and the cookie.
pub record Surroundings : Type 0 where
  pub version : String
  pub os_arch : String
  pub now_text : String
  pub now_seconds : ℤ
  pub cookie : String

-- `protocol.to_uppercase() == "UDP"`: no character outside ASCII has U, D or P as its upper case
unfoldable pub is_udp : TestConfig → Bool
is_udp t = eq_codes (map to_upper_ascii (codes t.protocol)) (codes "UDP")

-- `connection_info.as_ref().and_then(|c| c.socket_fd)`
unfoldable pub socket_fd_of : Option ConnectionInfo → Option ℤ
socket_fd_of none = none
socket_fd_of (some c) = c.socket_fd

-- `-` on durations, which panics below 0
unfoldable pub sub_duration : ℕ → ℕ → Option ℕ
sub_duration a b = if leb b a then some (a - b) else none

-- The start of the results.
unfoldable pub start_info :
    Surroundings → Option ConnectionInfo → Option SystemInfo → TestConfig → TestStartInfo
start_info env connection system t = record {
  connected = elim connection [ none ↦ [] | some c ↦ c ∷ [] ];
  version = env.version;
  system_info = elim system [ none ↦ env.os_arch | some s ↦ s.system_info ];
  timestamp = record {
    time = elim system [ none ↦ env.now_text | some s ↦ s.timestamp_str ];
    timesecs = elim system [ none ↦ env.now_seconds | some s ↦ s.timestamp ];
  };
  connecting_to = record {
    host = elim connection [ none ↦ "" | some c ↦ c.remote_host ];
    port = elim connection [ none ↦ 5201 | some c ↦ c.remote_port ];
  };
  cookie = env.cookie;
  tcp_mss_default = if is_udp t then none else some 1448;
  sock_bufsize = 0;
  sndbuf_actual = if is_udp t then 212992 else 16384;
  rcvbuf_actual = if is_udp t then 212992 else 131072;
  test_start = t;
}

module _ (fl : Float) where
  open fl use {F, of_u64, as_secs, mul, div, lt}

  unfoldable pub tcp_interval_of : Option ConnectionInfo → IntervalStats F → Option (IntervalData F)
  tcp_interval_of connection interval = do
    seconds ← sub_duration interval.end interval.start
    let stat : DetailedIntervalStats F = record {
      socket = socket_fd_of connection;
      start = as_secs interval.start;
      end = as_secs interval.end;
      seconds = as_secs seconds;
      bytes = interval.bytes;
      bits_per_second = interval.bits_per_second;
      tcp_stats = tcp_stats_default;
      packets = none;
      omitted = false;
      sender = true;
    }
    some (tcp_interval (stat ∷ []) stat)

  -- `build_tcp_intervals`, `none` where a subtraction panics
  unfoldable pub build_tcp_intervals :
      List (IntervalStats F) → Option ConnectionInfo → Option (List (IntervalData F))
  build_tcp_intervals [] connection = some []
  build_tcp_intervals (i ∷ is) connection = do
    interval ← tcp_interval_of connection i
    intervals ← build_tcp_intervals is connection
    some (interval ∷ intervals)

  unfoldable pub udp_interval_of : Option ConnectionInfo → IntervalStats F → Option (IntervalData F)
  udp_interval_of connection interval = do
    seconds ← sub_duration interval.end interval.start
    let stat : UdpIntervalStats F = record {
      socket = socket_fd_of connection;
      start = as_secs interval.start;
      end = as_secs interval.end;
      seconds = as_secs seconds;
      bytes = interval.bytes;
      bits_per_second = interval.bits_per_second;
      packets = if interval.packets == u64_max then 0 else interval.packets;
      omitted = false;
      sender = true;
    }
    some (udp_interval (stat ∷ []) stat)

  -- `build_udp_intervals`
  unfoldable pub build_udp_intervals :
      List (IntervalStats F) → Option ConnectionInfo → Option (List (IntervalData F))
  build_udp_intervals [] connection = some []
  build_udp_intervals (i ∷ is) connection = do
    interval ← udp_interval_of connection i
    intervals ← build_udp_intervals is connection
    some (interval ∷ intervals)

  -- `if total_duration > 0.0 { (bytes as f64 * 8.0) / total_duration } else { 0.0 }`
  unfoldable pub rate_or_zero : ℕ → ℕ → F
  rate_or_zero bytes duration =
      if lt (of_u64 0) (as_secs duration) then rate_over fl bytes duration else of_u64 0

  -- The summary of a direction of a TCP test.
  unfoldable pub tcp_summary : Measurements F → Option ConnectionInfo → ℕ → F → StreamSummary F
  tcp_summary m connection bytes rate = record {
    socket = socket_fd_of connection;
    start = of_u64 0;
    end = as_secs m.total_duration;
    seconds = as_secs m.total_duration;
    bytes = bytes;
    bits_per_second = rate;
    retransmits = 0;
    max_snd_cwnd = none;
    max_rtt = none;
    min_rtt = none;
    mean_rtt = none;
    sender = true;
  }

  unfoldable pub build_tcp_end_info : Measurements F → Option ConnectionInfo → TestEndInfo F
  build_tcp_end_info m connection =
      let sender = tcp_summary m connection m.total_bytes_sent (total_bits_per_second fl m) in
      let receiver =
        tcp_summary m connection m.total_bytes_received
          (rate_or_zero m.total_bytes_received m.total_duration) in
      tcp_end (record { sender = sender; receiver = receiver } ∷ []) sender receiver none
        (some "cubic") (some "cubic")

  -- `(lost as f64 / expected as f64) * 100.0`, or 0
  unfoldable pub lost_percent_of : ℕ → ℕ → F
  lost_percent_of lost expected =
      if ltb 0 expected then mul (div (of_u64 lost) (of_u64 expected)) (of_u64 100) else of_u64 0

  unfoldable pub build_udp_end_info :
      MeasurementsCollector F → Option ConnectionInfo → TestEndInfo F
  build_udp_end_info c connection =
      let m = c.inner in
      let (lost, expected) = calculate_udp_loss c in
      let bytes = add64 m.total_bytes_sent m.total_bytes_received in
      let rate = rate_or_zero bytes m.total_duration in
      let percent = lost_percent_of lost expected in
      let summary : UdpStreamSummary F = record {
        socket = socket_fd_of connection;
        start = of_u64 0;
        end = as_secs m.total_duration;
        seconds = as_secs m.total_duration;
        bytes = bytes;
        bits_per_second = rate;
        jitter_ms = m.jitter_ms;
        lost_packets = lost;
        packets = expected;
        lost_percent = percent;
        out_of_order = if ltb 0 m.out_of_order_packets then some m.out_of_order_packets else none;
        sender = ltb m.total_bytes_received m.total_bytes_sent;
      } in
      let sum : UdpSum F = record {
        start = of_u64 0;
        end = as_secs m.total_duration;
        seconds = as_secs m.total_duration;
        bytes = bytes;
        bits_per_second = rate;
        jitter_ms = m.jitter_ms;
        lost_packets = lost;
        packets = expected;
        lost_percent = percent;
        sender = ltb m.total_bytes_received m.total_bytes_sent;
      } in
      udp_end (summary ∷ []) sum none

  unfoldable pub get_detailed_results :
      Surroundings
      → MeasurementsCollector F
      → Option ConnectionInfo
      → Option SystemInfo
      → TestConfig
      → Option (DetailedTestResults F)
  get_detailed_results env c connection system t = do
    intervals ←
        if is_udp t
        then build_udp_intervals c.inner.intervals connection
        else build_tcp_intervals c.inner.intervals connection
    some (record {
      start = start_info env connection system t;
      intervals = intervals;
      end =
          if is_udp t
          then build_udp_end_info c connection
          else build_tcp_end_info c.inner connection;
    })
