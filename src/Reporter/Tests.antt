-- ===== src/Reporter/Tests.antt =====
-- Runs of the reporter task, and its theorem at a concrete input.
use rperf3_rs.Base.{ℕ, ◌≡◌, refl, [], ◌∷◌, map, some, none, true, false}
use rperf3_rs.Base.Float.{whole_float}
use rperf3_rs.Reporter.{
  IntervalReport, report_msg, run_reporter_task, update_of, format_interval_output, tcp_columns,
  columns_of,
}
use rperf3_rs.Reporter.Effects.{messages_of, updates_in, lines_in, run_reporter_task-messages_of}

abbrev second : IntervalReport ℕ
second = record {
  stream_id = 5;
  interval_start = 0;
  interval_end = 1000000000;
  bytes = 125000000;
  bits_per_second = 1000000000;
  packets = none;
  jitter_ms = none;
  lost_packets = none;
  lost_percent = none;
  retransmits = some 2;
  cwnd = some 65536;
}

columns_run : (format_interval_output whole_float second).columns ≡ tcp_columns 2 64
unfolding format_interval_output columns_of
columns_run = refl

run_reporter_task-messages_of_example :
    (updates_in (
        run_reporter_task whole_float false true
          (messages_of (second ∷ []) (report_msg second ∷ [])))
      ≡ map update_of (second ∷ []))
    × (lines_in (
          run_reporter_task whole_float false true
            (messages_of (second ∷ []) (report_msg second ∷ [])))
        ≡ map (format_interval_output whole_float) (second ∷ []))
run_reporter_task-messages_of_example =
    run_reporter_task-messages_of whole_float false true (second ∷ []) (report_msg second ∷ [])
