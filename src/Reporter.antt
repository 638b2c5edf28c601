-- ===== src/Reporter.antt =====
-- src/interval_reporter.rs: the task that prints interval reports and calls back. The channel is the
-- list of the messages that arrive before it closes; what the task does is the list of its effects.
pub mod Effects
mod Tests
use rperf3_rs.Base.{
  ℕ, ◌+◌, ◌*◌, ◌/◌, ◌^◌, List, [], ◌∷◌, ◌++◌, Option, none, some, Bool, true, false, not,
  if◌then◌else◌, leb,
}
use rperf3_rs.Base.Text.{String}
use rperf3_rs.Base.Float.{Float}

pub record IntervalReport (F : Type 0) : Type 0 where
  pub stream_id : ℕ
  pub interval_start : ℕ
  pub interval_end : ℕ
  pub bytes : ℕ
  pub bits_per_second : F
  pub packets : Option ℕ
  pub jitter_ms : Option F
  pub lost_packets : Option ℕ
  pub lost_percent : Option F
  pub retransmits : Option ℕ
  pub cwnd : Option ℕ

-- `IntervalMessage`
pub data IntervalMessage (F : Type 0) : Type 0 where
  report_msg : IntervalReport F → IntervalMessage F
  complete_msg : IntervalMessage F

-- `ProgressEvent::IntervalUpdate`
pub record IntervalUpdate (F : Type 0) : Type 0 where
  pub interval_start : ℕ
  pub interval_end : ℕ
  pub bytes : ℕ
  pub bits_per_second : F
  pub packets : Option ℕ
  pub jitter_ms : Option F
  pub lost_packets : Option ℕ
  pub lost_percent : Option F
  pub retransmits : Option ℕ

-- The last columns of a line: UDP's packets, TCP's retransmits with or without the window in KBytes.
pub data Columns : Type 0 where
  udp_columns : (packets : ℕ) → Columns
  tcp_columns : (retransmits : ℕ) → (cwnd_kbytes : ℕ) → Columns
  retransmit_column : (retransmits : ℕ) → Columns
  no_columns : Columns

-- A printed line: the values that the format places.
pub record Line (F : Type 0) : Type 0 where
  pub stream_id : ℕ
  pub start_secs : F
  pub end_secs : F
  pub transfer_val : F
  pub transfer_unit : String
  pub bitrate_val : F
  pub bitrate_unit : String
  pub columns : Columns

pub data Effect (F : Type 0) : Type 0 where
  on_progress : IntervalUpdate F → Effect F
  print_line : Line F → Effect F

unfoldable pub columns_of : Option ℕ → Option ℕ → Option ℕ → Columns
columns_of (some packets) retransmits cwnd = udp_columns packets
columns_of none (some retr) (some cwnd_val) = tcp_columns retr (cwnd_val / 1024)
columns_of none (some retr) none = retransmit_column retr
columns_of none none cwnd = no_columns

unfoldable pub update_of : {F : Type 0} → IntervalReport F → IntervalUpdate F
update_of r = record {
  interval_start = r.interval_start;
  interval_end = r.interval_end;
  bytes = r.bytes;
  bits_per_second = r.bits_per_second;
  packets = r.packets;
  jitter_ms = r.jitter_ms;
  lost_packets = r.lost_packets;
  lost_percent = r.lost_percent;
  retransmits = r.retransmits;
}

module _ (fl : Float) where
  open fl use {F, of_u64, as_secs, div, le}

  unfoldable pub transfer_of : ℕ → F × String
  transfer_of bytes =
      if leb 1000000000 bytes
      then (div (of_u64 bytes) (of_u64 1000000000), "GBytes")
      else if leb 1000000 bytes
      then (div (of_u64 bytes) (of_u64 1000000), "MBytes")
      else (div (of_u64 bytes) (of_u64 1000), "KBytes")

  unfoldable pub bitrate_of : F → F × String
  bitrate_of rate =
      if le (of_u64 1000000000) rate
      then (div rate (of_u64 1000000000), "Gbits/sec")
      else (div rate (of_u64 1000000), "Mbits/sec")

  unfoldable pub format_interval_output : IntervalReport F → Line F
  format_interval_output r = record {
    stream_id = r.stream_id;
    start_secs = as_secs r.interval_start;
    end_secs = as_secs r.interval_end;
    transfer_val = (transfer_of r.bytes).0;
    transfer_unit = (transfer_of r.bytes).1;
    bitrate_val = (bitrate_of r.bits_per_second).0;
    bitrate_unit = (bitrate_of r.bits_per_second).1;
    columns = columns_of r.packets r.retransmits r.cwnd;
  }

  -- What a report does, `has_callback` and `json_mode` given.
  unfoldable pub on_report : Bool → Bool → IntervalReport F → List (Effect F)
  on_report json_mode has_callback r =
      (if has_callback then on_progress (update_of r) ∷ [] else [])
      ++ (if not json_mode then print_line (format_interval_output r) ∷ [] else [])

  unfoldable pub run_reporter_task : Bool → Bool → List (IntervalMessage F) → List (Effect F)
  run_reporter_task json_mode has_callback [] = []
  run_reporter_task json_mode has_callback (report_msg r ∷ ms) =
      on_report json_mode has_callback r ++ run_reporter_task json_mode has_callback ms
  run_reporter_task json_mode has_callback (complete_msg ∷ ms) = []
