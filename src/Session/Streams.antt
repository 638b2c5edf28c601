-- ===== src/Session/Streams.antt =====
-- The streams of the collector of src/measurements.rs in the tests of src/server.rs, which record
-- under stream 0, and the result that is made of them.
use rperf3_rs.Base.{
  ℕ, ◌+◌, ◌%◌, ◌^◌, ◌≡◌, refl, ap, ◌∙◌, ◌⊎◌, inl, inr, Option, none, some, List, [], ◌∷◌, ◌++◌, map,
  true, ◌==◌, arith, length, add64,
}
use rperf3_rs.Base.Float.{Float}
use rperf3_rs.Protocol.{result, done}
use rperf3_rs.Measurements.Data.{total_bits_per_second}
use rperf3_rs.Measurements.Collector.{
  MeasurementsCollector, PerStreamMeasurements, per_stream_new, find_stream, update_at, sent_by,
  received_by, record_bytes_sent, record_bytes_received, get_or_create_stream, create_unless_found,
  on_stream, get, to_stream_stats,
}
use rperf3_rs.Measurements.Collector.Atomic.{get-fields}
use rperf3_rs.Traffic.Tcp.Rounds.{record_bytes_received-totals, record_bytes_sent-totals}
use rperf3_rs.Session.{stream_result, final_messages}

-- The stream of the collector, if there is one, is number 0 and has the totals, modulo 2^64; without
-- one they are 0.
abbrev pub IsSingle : {F : Type 0} → MeasurementsCollector F → Type 0
IsSingle c =
    ((c.per_stream ≡ []) × (c.atomic_bytes_sent ≡ 0) × (c.atomic_bytes_received ≡ 0))
    ⊎ ((s : PerStreamMeasurements) × (c.per_stream ≡ s ∷ [])
        × (s.stream_id ≡ 0)
        × (s.bytes_sent % 2 ^ 64 ≡ c.atomic_bytes_sent % 2 ^ 64)
        × (s.bytes_received % 2 ^ 64 ≡ c.atomic_bytes_received % 2 ^ 64))

-- The streams after a change of stream 0.
after_found :
    (PerStreamMeasurements → PerStreamMeasurements)
    → List PerStreamMeasurements
    → Option ℕ
    → List PerStreamMeasurements
after_found f ss none = update_at (length ss) f (ss ++ (per_stream_new 0 ∷ []))
after_found f ss (some i) = update_at i f ss

created :
    (f : PerStreamMeasurements → PerStreamMeasurements)
    → after_found f [] (find_stream [] 0) ≡ f (per_stream_new 0) ∷ []
unfolding after_found find_stream update_at
created f = refl

found :
    (f : PerStreamMeasurements → PerStreamMeasurements) (s : PerStreamMeasurements)
    → s.stream_id ≡ 0
    → after_found f (s ∷ []) (find_stream (s ∷ []) 0) ≡ f s ∷ []
unfolding after_found find_stream update_at
found f s e = let z : (s.stream_id == 0) ≡ true = ground (arith, e) in rw z refl

module _ {F : Type 0} where
  streams-created :
      (c : MeasurementsCollector F) (f : PerStreamMeasurements → PerStreamMeasurements)
      (o : Option ℕ)
      → let (i, d) = create_unless_found c 0 o in
        (on_stream d i f).per_stream ≡ after_found f c.per_stream o
  unfolding create_unless_found on_stream after_found
  streams-created c f none = refl
  streams-created c f (some i) = refl

  streams-received :
      (c : MeasurementsCollector F) (n : ℕ)
      → (record_bytes_received c 0 n).per_stream
        ≡ after_found (received_by n) c.per_stream (find_stream c.per_stream 0)
  unfolding record_bytes_received get_or_create_stream
  streams-received c n =
      streams-created (record c { atomic_bytes_received = add64 c.atomic_bytes_received n })
        (received_by n) (find_stream c.per_stream 0)

  streams-sent :
      (c : MeasurementsCollector F) (n : ℕ)
      → (record_bytes_sent c 0 n).per_stream
        ≡ after_found (sent_by n) c.per_stream (find_stream c.per_stream 0)
  unfolding record_bytes_sent get_or_create_stream
  streams-sent c n =
      streams-created (record c { atomic_bytes_sent = add64 c.atomic_bytes_sent n }) (sent_by n)
        (find_stream c.per_stream 0)

  after_found-IsSingle :
      (c d : MeasurementsCollector F) (f : PerStreamMeasurements → PerStreamMeasurements)
      (sent received : ℕ)
      → d.per_stream ≡ after_found f c.per_stream (find_stream c.per_stream 0)
      → d.atomic_bytes_sent % 2 ^ 64 ≡ (c.atomic_bytes_sent + sent) % 2 ^ 64
      → d.atomic_bytes_received % 2 ^ 64 ≡ (c.atomic_bytes_received + received) % 2 ^ 64
      → ((s : PerStreamMeasurements)
          → ((f s).stream_id ≡ s.stream_id)
            × ((f s).bytes_sent % 2 ^ 64 ≡ (s.bytes_sent + sent) % 2 ^ 64)
            × ((f s).bytes_received % 2 ^ 64 ≡ (s.bytes_received + received) % 2 ^ 64))
      → IsSingle c
      → IsSingle d
  unfolding per_stream_new
  after_found-IsSingle c d f sent received e es er h (inl (e0, s0, r0)) =
      let q = ap (λ ss. after_found f ss (find_stream ss 0)) e0 in
      let (i, s, r) = h (per_stream_new 0) in
      inr (
        f (per_stream_new 0),
        e ∙ q ∙ created f,
        i,
        omega (arith, s, es, s0),
        omega (arith, r, er, r0),
      )
  after_found-IsSingle c d f sent received e es er h (inr (x, e0, i0, s0, r0)) =
      let q = ap (λ ss. after_found f ss (find_stream ss 0)) e0 in
      let (i, s, r) = h x in
      inr (f x, e ∙ q ∙ found f x i0, i ∙ i0, omega (arith, s, es, s0), omega (arith, r, er, r0))

  pub received-IsSingle :
      (c : MeasurementsCollector F) (n : ℕ) → IsSingle c → IsSingle (record_bytes_received c 0 n)
  unfolding received_by
  received-IsSingle c n v =
      let (tr, ts, tp, tu) = record_bytes_received-totals c 0 n in
      after_found-IsSingle c (record_bytes_received c 0 n) (received_by n) 0 n
        (streams-received c n) (omega (arith, ts)) (omega (arith, tr))
        (λ s. (refl, omega arith, omega arith)) v

  pub sent-IsSingle :
      (c : MeasurementsCollector F) (n : ℕ) → IsSingle c → IsSingle (record_bytes_sent c 0 n)
  unfolding sent_by
  sent-IsSingle c n v =
      let (ts, tr, tp, tu) = record_bytes_sent-totals c 0 n in
      after_found-IsSingle c (record_bytes_sent c 0 n) (sent_by n) n 0 (streams-sent c n)
        (omega (arith, ts)) (omega (arith, tr)) (λ s. (refl, omega arith, omega arith)) v

module _ (fl : Float) where
  open fl use {F, as_secs}

  -- The snapshot of a collector with a stream has its result.
  pub final_messages-IsSingle :
      (c : MeasurementsCollector F) (s : PerStreamMeasurements)
      → c.per_stream ≡ s ∷ []
      → final_messages fl (get c)
        ≡ result 0 s.bytes_sent s.bytes_received
            (as_secs (get c).total_duration)
            (total_bits_per_second fl (get c))
            none
          ∷ done
          ∷ []
  unfolding final_messages stream_result to_stream_stats
  final_messages-IsSingle c s e =
      let (t, f) = get-fields c in
      let g : (get c).streams ≡ to_stream_stats c.inner.total_duration s ∷ [] =
        f ∙ ap (λ ss. map (to_stream_stats c.inner.total_duration) ss) e in
      ap (λ ss. stream_result fl (get c) ss ++ (done ∷ [])) g

-- The same for a collector with the same streams and totals.
pub IsSingle-same :
    {F : Type 0} (c d : MeasurementsCollector F)
    → d.per_stream ≡ c.per_stream
    → d.atomic_bytes_sent ≡ c.atomic_bytes_sent
    → d.atomic_bytes_received ≡ c.atomic_bytes_received
    → IsSingle c
    → IsSingle d
IsSingle-same c d e s r (inl (e0, s0, r0)) = inl (e ∙ e0, s ∙ s0, r ∙ r0)
IsSingle-same c d e s r (inr (x, e0, i0, s0, r0)) =
    inr (x, e ∙ e0, i0, omega (arith, s0, s), omega (arith, r0, r))
