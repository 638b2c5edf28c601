-- ===== src/Measurements/Report/Tests.antt =====
-- Runs of the detailed results, and their theorems at concrete inputs.
use rperf3_rs.Base.{ℕ, ◌≡◌, refl, List, [], ◌∷◌, none, some, true, false, arith}
use rperf3_rs.Base.Int.{pos}
use rperf3_rs.Base.Float.{whole_float}
use rperf3_rs.Measurements.Data.{IntervalStats, measurements_new}
use rperf3_rs.Measurements.Collector.{MeasurementsCollector, collector_new}
use rperf3_rs.Measurements.Report.{
  Surroundings, get_detailed_results, build_udp_end_info, is_udp, start_info,
}
use rperf3_rs.Measurements.Report.Types.{TestConfig, DetailedTestResults}
use rperf3_rs.Measurements.Report.Totals.{sent, packet, apply_all, Recording}
use rperf3_rs.Measurements.Report.Intervals.{AreShown, get_detailed_results-AreShown}

abbrev env : Surroundings
env = record {
  version = "rperf3 0.6";
  os_arch = "linux x86_64";
  now_text = "now";
  now_seconds = pos 1700000000;
  cookie = "c0ffee";
}

abbrev tcp_test : TestConfig
tcp_test = record {
  protocol = "Tcp";
  num_streams = 1;
  blksize = 131072;
  omit = 0;
  duration = 10;
  reverse = false;
}

abbrev udp_test : TestConfig
udp_test = record tcp_test { protocol = "Udp" }

is_udp_runs : (is_udp udp_test ≡ true) × (is_udp tcp_test ≡ false)
unfolding is_udp
is_udp_runs = (refl, refl)

abbrev busy : MeasurementsCollector ℕ
busy = record (collector_new whole_float) { atomic_bytes_sent = 700; atomic_bytes_received = 300 }

abbrev two_sent : List (Recording ℕ)
two_sent = sent 0 100 ∷ sent 1 200 ∷ packet 0 ∷ []

abbrev unsynced_results : DetailedTestResults ℕ
unsynced_results = record {
  start = start_info env none none udp_test;
  intervals = [];
  end =
      build_udp_end_info whole_float (apply_all whole_float (collector_new whole_float) two_sent)
        none;
}

abbrev second : IntervalStats ℕ
second = record { start = 0; end = 1000000000; bytes = 1000; bits_per_second = 8000; packets = 3 }

abbrev one_interval : MeasurementsCollector ℕ
one_interval = record (collector_new whole_float) {
  inner = record (measurements_new whole_float) { intervals = second ∷ [] };
}

get_detailed_results-AreShown_example :
    (r : DetailedTestResults ℕ) × (get_detailed_results whole_float env one_interval none none
        udp_test
      ≡ some r)
    × AreShown whole_float none (is_udp udp_test) (second ∷ []) r.intervals
get_detailed_results-AreShown_example =
    get_detailed_results-AreShown whole_float none env one_interval none udp_test (omega arith, tt)
