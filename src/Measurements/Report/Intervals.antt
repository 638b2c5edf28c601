-- ===== src/Measurements/Report/Intervals.antt =====
-- The intervals that the detailed results of src/measurements.rs report.
use rperf3_rs.Base.{
  le→leb, ◌-◌, ◌≤◌, ◌≡◌, refl, List, [], ◌∷◌, Option, none, some, All, Bool, true, false,
  Bool-cases, inl, inr, if◌then◌else◌, ◌==◌, u64_max,
}
use rperf3_rs.Base.Float.{Float}
use rperf3_rs.Measurements.Data.{IntervalStats}
use rperf3_rs.Measurements.Collector.{MeasurementsCollector}
use rperf3_rs.Measurements.TcpStats.{tcp_stats_default}
use rperf3_rs.Measurements.Report.Types.{
  ConnectionInfo, TestConfig, SystemInfo, DetailedIntervalStats, UdpIntervalStats, IntervalData,
  tcp_interval, udp_interval, DetailedTestResults,
}
use rperf3_rs.Measurements.Report.{
  Surroundings, is_udp, sub_duration, socket_fd_of, tcp_interval_of, udp_interval_of,
  build_tcp_intervals, build_udp_intervals, get_detailed_results,
}

module _ (fl : Float) (connection : Option ConnectionInfo) where
  open fl use {F, as_secs}

  -- The interval does not run backwards.
  abbrev pub IsForward : IntervalStats F → Type 0
  IsForward i = i.start ≤ i.end

  -- A TCP row has the interval's times, bytes and rate, and no TCP statistics.
  pub record IsTcpRow (i : IntervalStats F) (s : DetailedIntervalStats F) : Type 0 where
    pub socket : s.socket ≡ socket_fd_of connection
    pub start : s.start ≡ as_secs i.start
    pub end : s.end ≡ as_secs i.end
    pub seconds : s.seconds ≡ as_secs (i.end - i.start)
    pub bytes : s.bytes ≡ i.bytes
    pub rate : s.bits_per_second ≡ i.bits_per_second
    pub tcp_stats : s.tcp_stats ≡ tcp_stats_default
    pub packets : s.packets ≡ none
    pub omitted : s.omitted ≡ false
    pub sender : s.sender ≡ true

  -- A UDP row has them, and the packets, where the largest number stands for none.
  pub record IsUdpRow (i : IntervalStats F) (s : UdpIntervalStats F) : Type 0 where
    pub socket : s.socket ≡ socket_fd_of connection
    pub start : s.start ≡ as_secs i.start
    pub end : s.end ≡ as_secs i.end
    pub seconds : s.seconds ≡ as_secs (i.end - i.start)
    pub bytes : s.bytes ≡ i.bytes
    pub rate : s.bits_per_second ≡ i.bits_per_second
    pub packets : s.packets ≡ (if i.packets == u64_max then 0 else i.packets)
    pub omitted : s.omitted ≡ false
    pub sender : s.sender ≡ true

  -- The reported interval is of the test's protocol, with one stream, which is the sum.
  abbrev pub IsShown : Bool → IntervalStats F → IntervalData F → Type 0
  IsShown false i (tcp_interval streams sum) = (streams ≡ sum ∷ []) × IsTcpRow i sum
  IsShown true i (udp_interval streams sum) = (streams ≡ sum ∷ []) × IsUdpRow i sum
  IsShown _ i _ = ⊥

  -- The intervals are shown one by one, in their order.
  abbrev pub AreShown : Bool → List (IntervalStats F) → List (IntervalData F) → Type 0
  AreShown udp [] [] = Unit
  AreShown udp (i ∷ is) (d ∷ ds) = IsShown udp i d × AreShown udp is ds
  AreShown udp _ _ = ⊥

  tcp_intervals-AreShown :
      (is : List (IntervalStats F))
      → All IsForward is
      → (out : List (IntervalData F)) × (build_tcp_intervals fl is connection ≡ some out)
        × AreShown false is out
  unfolding build_tcp_intervals tcp_interval_of sub_duration
  tcp_intervals-AreShown [] v = ([], refl, tt)
  tcp_intervals-AreShown (i ∷ is) v =
      let (out, e, w) = tcp_intervals-AreShown is v.1 in
      rw (le→leb i.start i.end v.0, e)
        (
          _,
          refl,
          (
            (
              refl,
              record {
                socket = refl;
                start = refl;
                end = refl;
                seconds = refl;
                bytes = refl;
                rate = refl;
                tcp_stats = refl;
                packets = refl;
                omitted = refl;
                sender = refl;
              },
            ),
            w,
          ),
        )

  udp_intervals-AreShown :
      (is : List (IntervalStats F))
      → All IsForward is
      → (out : List (IntervalData F)) × (build_udp_intervals fl is connection ≡ some out)
        × AreShown true is out
  unfolding build_udp_intervals udp_interval_of sub_duration
  udp_intervals-AreShown [] v = ([], refl, tt)
  udp_intervals-AreShown (i ∷ is) v =
      let (out, e, w) = udp_intervals-AreShown is v.1 in
      rw (le→leb i.start i.end v.0, e)
        (
          _,
          refl,
          (
            (
              refl,
              record {
                socket = refl;
                start = refl;
                end = refl;
                seconds = refl;
                bytes = refl;
                rate = refl;
                packets = refl;
                omitted = refl;
                sender = refl;
              },
            ),
            w,
          ),
        )

  -- If no interval of the collector runs backwards, the results are built without a panic, and report
  -- all of them, each once and in order, with the times, bytes and rate, and for UDP the packets,
  -- that were collected.
  pub get_detailed_results-AreShown :
      (env : Surroundings) (c : MeasurementsCollector F) (system : Option SystemInfo)
      (t : TestConfig)
      → All IsForward (c.inner.intervals)
      → (r : DetailedTestResults F) × (get_detailed_results fl env c connection system t ≡ some r)
        × AreShown (is_udp t) (c.inner.intervals) r.intervals
  unfolding get_detailed_results
  get_detailed_results-AreShown env c system t v = elim (Bool-cases (is_udp t)) [
    | inl u ↦
        let (out, e, w) = udp_intervals-AreShown (c.inner.intervals) v in rw (u, e) (_, refl, w)
    | inr u ↦
        let (out, e, w) = tcp_intervals-AreShown (c.inner.intervals) v in rw (u, e) (_, refl, w)
  ]
