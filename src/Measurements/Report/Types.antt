-- ===== src/Measurements/Report/Types.antt =====
-- The records of the detailed results of src/measurements.rs, in the shape that is written as JSON.
use rperf3_rs.Base.{ℕ, Bool, Option, List}
use rperf3_rs.Base.Int.{ℤ}
use rperf3_rs.Base.Text.{String}
use rperf3_rs.Measurements.TcpStats.{TcpStats}

pub record ConnectionInfo : Type 0 where
  pub socket_fd : Option ℤ
  pub local_host : String
  pub local_port : ℕ
  pub remote_host : String
  pub remote_port : ℕ

pub record TestConfig : Type 0 where
  pub protocol : String
  pub num_streams : ℕ
  pub blksize : ℕ
  pub omit : ℕ
  pub duration : ℕ
  pub reverse : Bool

pub record SystemInfo : Type 0 where
  pub version : String
  pub system_info : String
  pub timestamp : ℤ
  pub timestamp_str : String

pub record DetailedIntervalStats (F : Type 0) : Type 0 where
  pub socket : Option ℤ
  pub start : F
  pub end : F
  pub seconds : F
  pub bytes : ℕ
  pub bits_per_second : F
  pub tcp_stats : TcpStats
  pub packets : Option ℕ
  pub omitted : Bool
  pub sender : Bool

pub record UdpIntervalStats (F : Type 0) : Type 0 where
  pub socket : Option ℤ
  pub start : F
  pub end : F
  pub seconds : F
  pub bytes : ℕ
  pub bits_per_second : F
  pub packets : ℕ
  pub omitted : Bool
  pub sender : Bool

pub record StreamSummary (F : Type 0) : Type 0 where
  pub socket : Option ℤ
  pub start : F
  pub end : F
  pub seconds : F
  pub bytes : ℕ
  pub bits_per_second : F
  pub retransmits : ℕ
  pub max_snd_cwnd : Option ℕ
  pub max_rtt : Option ℕ
  pub min_rtt : Option ℕ
  pub mean_rtt : Option ℕ
  pub sender : Bool

pub record UdpStreamSummary (F : Type 0) : Type 0 where
  pub socket : Option ℤ
  pub start : F
  pub end : F
  pub seconds : F
  pub bytes : ℕ
  pub bits_per_second : F
  pub jitter_ms : F
  pub lost_packets : ℕ
  pub packets : ℕ
  pub lost_percent : F
  pub out_of_order : Option ℕ
  pub sender : Bool

pub record UdpSum (F : Type 0) : Type 0 where
  pub start : F
  pub end : F
  pub seconds : F
  pub bytes : ℕ
  pub bits_per_second : F
  pub jitter_ms : F
  pub lost_packets : ℕ
  pub packets : ℕ
  pub lost_percent : F
  pub sender : Bool

pub record CpuUtilization (F : Type 0) : Type 0 where
  pub host_total : F
  pub host_user : F
  pub host_system : F
  pub remote_total : F
  pub remote_user : F
  pub remote_system : F

pub record TimestampInfo : Type 0 where
  pub time : String
  pub timesecs : ℤ

pub record ConnectingTo : Type 0 where
  pub host : String
  pub port : ℕ

pub record TestStartInfo : Type 0 where
  pub connected : List ConnectionInfo
  pub version : String
  pub system_info : String
  pub timestamp : TimestampInfo
  pub connecting_to : ConnectingTo
  pub cookie : String
  pub tcp_mss_default : Option ℕ
  pub sock_bufsize : ℕ
  pub sndbuf_actual : ℕ
  pub rcvbuf_actual : ℕ
  pub test_start : TestConfig

-- `IntervalData::Tcp` and `IntervalData::Udp`: the streams and their sum
pub data IntervalData (F : Type 0) : Type 0 where
  tcp_interval : List (DetailedIntervalStats F) → DetailedIntervalStats F → IntervalData F
  udp_interval : List (UdpIntervalStats F) → UdpIntervalStats F → IntervalData F

pub record EndStreamInfo (F : Type 0) : Type 0 where
  pub sender : StreamSummary F
  pub receiver : StreamSummary F

-- `TestEndInfo::Tcp` (streams, sent, received, CPU, congestion algorithms) and `TestEndInfo::Udp`
-- (streams, sum, CPU); `UdpEndStreamInfo` is its only field
pub data TestEndInfo (F : Type 0) : Type 0 where
  tcp_end :
      List (EndStreamInfo F)
      → StreamSummary F
      → StreamSummary F
      → Option (CpuUtilization F)
      → Option String
      → Option String
      → TestEndInfo F
  udp_end : List (UdpStreamSummary F) → UdpSum F → Option (CpuUtilization F) → TestEndInfo F

pub record DetailedTestResults (F : Type 0) : Type 0 where
  pub start : TestStartInfo
  pub intervals : List (IntervalData F)
  pub end : TestEndInfo F
