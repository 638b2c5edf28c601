-- ===== src/Traffic/Pacing.antt =====
-- The bandwidth limit of the sending loops of src/server.rs, `send_data` and `send_udp_data`.
use rperf3_rs.Base.{ℕ, ◌-◌, ◌/◌, Option, none, some, List, [], ◌∷◌, ◌++◌, if◌then◌else◌, ltb, add64}
use rperf3_rs.Base.Float.{Float}

-- The bandwidth limit of a server's sending loops, and the sleeps that it asked for, in seconds. A
-- sleep that is no finite number of seconds panics in the source.
pub record Pacing (F : Type 0) : Type 0 where
  pub total_bytes_sent : ℕ
  pub last_bandwidth_check : ℕ
  pub sleeps : List F

-- `bandwidth.map(|bw| bw / 8)`
abbrev pub bytes_per_sec_of : Option ℕ → Option ℕ
bytes_per_sec_of none = none
bytes_per_sec_of (some bw) = some (bw / 8)

module _ (fl : Float) where
  open fl use {F, of_u64, decimal, as_secs, mul, div, lt, le, to_u64}

  unfoldable pub pacing_new : ℕ → Pacing F
  pacing_new start = record { total_bytes_sent = 0; last_bandwidth_check = start; sleeps = [] }

  -- The sleep for the bytes that are ahead of the rate, if it is long enough
  unfoldable pub sleeps_for : ℕ → ℕ → F → List F
  sleeps_for target_bps bytes_sent_in_period elapsed =
      let expected_bytes = to_u64 (mul (of_u64 target_bps) elapsed) in
      let sleep_time = div (of_u64 (bytes_sent_in_period - expected_bytes)) (of_u64 target_bps) in
      if ltb expected_bytes bytes_sent_in_period
      then (if lt (decimal 1 4) sleep_time then sleep_time ∷ [] else [])
      else []

  -- The bandwidth limit after a write of `n` bytes, `target_bytes_per_sec` the limit
  unfoldable pub pace : Option ℕ → Pacing F → ℕ → ℕ → ℕ → Pacing F
  pace none p n checked_at paced_at = record p { total_bytes_sent = add64 p.total_bytes_sent n }
  pace (some target_bps) p n checked_at paced_at =
      let total = add64 p.total_bytes_sent n in
      let elapsed = as_secs (checked_at - p.last_bandwidth_check) in
      if le (decimal 1 3) elapsed
      then record {
        total_bytes_sent = 0;
        last_bandwidth_check = paced_at;
        sleeps = p.sleeps ++ sleeps_for target_bps total elapsed;
      }
      else record p { total_bytes_sent = total }
