-- ===== src/Measurements/Collector/Atomic.antt =====
-- Concurrent calls of `record_bytes_sent` (src/measurements.rs): a call adds to the atomic total,
-- then finds or creates its stream under the lock, then adds to the stream; calls of other tasks
-- come between.
use rperf3_rs.Base.{
  map, ℕ, zero, suc, ◌+◌, ◌%◌, ◌^◌, ◌<◌, ◌≤◌, ◌≡◌, refl, List, [], ◌∷◌, ◌++◌, Option, none, some,
  arith, length, add64, length-append, All, Option-cases, inl, inr,
}
use rperf3_rs.Base.Float.{Float}
use rperf3_rs.Measurements.Data.{sum_by}
use rperf3_rs.Measurements.Collector.{
  collector_new, get, to_stream_stats, PerStreamMeasurements, MeasurementsCollector, per_stream_new,
  find_stream, update_at, sent_by, get_or_create_stream, create_unless_found, on_stream,
}

-- Where a task is in its call: outside, after the total, or with its stream at hand.
pub data Task : Type 0 where
  idle : Task
  counted : ℕ → ℕ → Task
  holding : ℕ → ℕ → Task

-- The bytes that are in the total and not yet in a stream.
abbrev pub in_flight : List Task → ℕ
in_flight [] = 0
in_flight (idle ∷ ts) = in_flight ts
in_flight (counted stream_id n ∷ ts) = n + in_flight ts
in_flight (holding i n ∷ ts) = n + in_flight ts

abbrev pub sent_sum : List PerStreamMeasurements → ℕ
sent_sum [] = 0
sent_sum (s ∷ ss) = s.bytes_sent + sent_sum ss

-- `fetch_add` on the total
unfoldable pub count_sent : {F : Type 0} → MeasurementsCollector F → ℕ → MeasurementsCollector F
count_sent c n = record c { atomic_bytes_sent = add64 c.atomic_bytes_sent n }

-- One step of one task, the others standing still.
pub data Step {F : Type 0}
    : MeasurementsCollector F → List Task → MeasurementsCollector F → List Task → Type 0 where
  count :
      {c : MeasurementsCollector F} (before after : List Task) (stream_id n : ℕ)
      → Step c (before ++ (idle ∷ after)) (count_sent c n) (before ++ (counted stream_id n ∷ after))
  look_up :
      {c : MeasurementsCollector F} (before after : List Task) (stream_id n : ℕ)
      → Step c
          (before ++ (counted stream_id n ∷ after))
          (get_or_create_stream c stream_id).1
          (before ++ (holding (get_or_create_stream c stream_id).0 n ∷ after))
  add_to_stream :
      {c : MeasurementsCollector F} (before after : List Task) (i n : ℕ)
      → Step c
          (before ++ (holding i n ∷ after))
          (on_stream c i (sent_by n))
          (before ++ (idle ∷ after))

pub data Steps {F : Type 0}
    : MeasurementsCollector F → List Task → MeasurementsCollector F → List Task → Type 0 where
  done : {c : MeasurementsCollector F} {ts : List Task} → Steps c ts c ts
  step :
      {c d e : MeasurementsCollector F} {ts us vs : List Task}
      → Step c ts d us
      → Steps d us e vs
      → Steps c ts e vs

-- A handle is the index of a stream.
abbrev pub IsValidIn : ℕ → Task → Type 0
IsValidIn n idle = Unit
IsValidIn n (counted stream_id b) = Unit
IsValidIn n (holding i b) = i < n

-- The total is the sum over the streams and the bytes in flight, modulo 2^64, and every handle is
-- good.
pub record IsBalanced {F : Type 0} (c : MeasurementsCollector F) (ts : List Task) : Type 0 where
  pub total : c.atomic_bytes_sent % 2 ^ 64 ≡ (sent_sum c.per_stream + in_flight ts) % 2 ^ 64
  pub handles : All (IsValidIn (length c.per_stream)) ts

in_flight-append : (xs ys : List Task) → in_flight (xs ++ ys) ≡ in_flight xs + in_flight ys
in_flight-append [] ys = omega arith
in_flight-append (idle ∷ xs) ys = in_flight-append xs ys
in_flight-append (counted s n ∷ xs) ys = omega (arith, in_flight-append xs ys)
in_flight-append (holding i n ∷ xs) ys = omega (arith, in_flight-append xs ys)

sent_sum-append :
    (xs ys : List PerStreamMeasurements) → sent_sum (xs ++ ys) ≡ sent_sum xs + sent_sum ys
sent_sum-append [] ys = omega arith
sent_sum-append (x ∷ xs) ys = omega (arith, sent_sum-append xs ys)

pub length-update_at :
    (i : ℕ) (f : PerStreamMeasurements → PerStreamMeasurements) (ss : List PerStreamMeasurements)
    → length (update_at i f ss) ≡ length ss
unfolding update_at
length-update_at i f [] = refl
length-update_at zero f (s ∷ ss) = refl
length-update_at (suc i) f (s ∷ ss) = omega (arith, length-update_at i f ss)

sent_sum-update_at :
    (i n : ℕ) (ss : List PerStreamMeasurements)
    → i < length ss
    → sent_sum (update_at i (sent_by n) ss) % 2 ^ 64 ≡ (sent_sum ss + n) % 2 ^ 64
unfolding update_at sent_by
sent_sum-update_at i n [] h = absurd (omega arith)
sent_sum-update_at zero n (s ∷ ss) h = omega arith
sent_sum-update_at (suc i) n (s ∷ ss) h = omega (arith, sent_sum-update_at i n ss (omega arith))

find_stream-lt :
    (ss : List PerStreamMeasurements) (stream_id i : ℕ)
    → find_stream ss stream_id ≡ some i
    → i < length ss
unfolding find_stream
find_stream-lt [] stream_id i e = cc
find_stream-lt (s ∷ ss) stream_id i e = elim (Option-cases (find_stream ss stream_id)) [
  | inl q ↦ ground arith
  | inr (j, q) ↦ let l = find_stream-lt ss stream_id j q in ground arith
]

IsValidIn-mono : (m n : ℕ) (ts : List Task) → m ≤ n → All (IsValidIn m) ts → All (IsValidIn n) ts
IsValidIn-mono m n [] h v = tt
IsValidIn-mono m n (idle ∷ ts) h v = (tt, IsValidIn-mono m n ts h v.1)
IsValidIn-mono m n (counted s b ∷ ts) h v = (tt, IsValidIn-mono m n ts h v.1)
IsValidIn-mono m n (holding i b ∷ ts) h v = (omega arith, IsValidIn-mono m n ts h v.1)

All-replace :
    (n : ℕ) (before after : List Task) (t u : Task)
    → (IsValidIn n t → IsValidIn n u)
    → All (IsValidIn n) (before ++ (t ∷ after))
    → All (IsValidIn n) (before ++ (u ∷ after))
All-replace n [] after t u f v = (f v.0, v.1)
All-replace n (x ∷ before) after t u f v = (v.0, All-replace n before after t u f v.1)

All-at :
    (n : ℕ) (before after : List Task) (t : Task)
    → All (IsValidIn n) (before ++ (t ∷ after))
    → IsValidIn n t
All-at n [] after t v = v.0
All-at n (x ∷ before) after t v = All-at n before after t v.1

-- What `get_or_create_stream` does to the vector.
module _ {F : Type 0} (c : MeasurementsCollector F) (stream_id : ℕ) where
  create_unless_found-cases :
      (found : Option ℕ)
      → ((i : ℕ) → found ≡ some i → i < length c.per_stream)
      → let (i, d) = create_unless_found c stream_id found in
        (i < length d.per_stream)
        × (length c.per_stream ≤ length d.per_stream)
        × (sent_sum d.per_stream ≡ sent_sum c.per_stream)
        × (d.atomic_bytes_sent ≡ c.atomic_bytes_sent)
  unfolding create_unless_found per_stream_new
  create_unless_found-cases (some i) h = (h i refl, omega arith, refl, refl)
  create_unless_found-cases none h =
      let l = length-append c.per_stream (per_stream_new stream_id ∷ []) in
      (
        omega (arith, l),
        omega (arith, l),
        omega (arith, sent_sum-append c.per_stream (per_stream_new stream_id ∷ [])),
        refl,
      )

  -- What `get_or_create_stream` does to the vector.
  get_or_create_stream-cases :
      let (i, d) = get_or_create_stream c stream_id in
      (i < length d.per_stream)
      × (length c.per_stream ≤ length d.per_stream)
      × (sent_sum d.per_stream ≡ sent_sum c.per_stream)
      × (d.atomic_bytes_sent ≡ c.atomic_bytes_sent)
  unfolding get_or_create_stream
  get_or_create_stream-cases =
      create_unless_found-cases (find_stream c.per_stream stream_id)
        (find_stream-lt c.per_stream stream_id)

pub Step-IsBalanced :
    {F : Type 0} {c d : MeasurementsCollector F} {ts us : List Task}
    → Step c ts d us
    → IsBalanced c ts
    → IsBalanced d us
unfolding count_sent on_stream
Step-IsBalanced (count {c = c} before after stream_id n) v = record {
  total = omega (
    arith,
    in_flight-append before (idle ∷ after),
    in_flight-append before (counted stream_id n ∷ after),
    v.total,
  );
  handles =
      All-replace (length c.per_stream) before after idle (counted stream_id n) (λ u. tt) v.handles;
}
Step-IsBalanced (look_up {c = c} before after s n) v =
    let (i, d) = get_or_create_stream c s in
    let (l, grown, sum, total) = get_or_create_stream-cases c s in
    record {
      total = omega (
        arith,
        in_flight-append before (counted s n ∷ after),
        in_flight-append before (holding i n ∷ after),
        v.total,
        sum,
        total,
      );
      handles =
          All-replace (length d.per_stream) before after (counted s n) (holding i n) (λ u. l)
            (IsValidIn-mono (length c.per_stream) (length d.per_stream)
              (before ++ (counted s n ∷ after)) grown v.handles);
    }
Step-IsBalanced (add_to_stream {c = c} before after i n) v =
    let l = All-at (length c.per_stream) before after (holding i n) v.handles in
    record {
      total = omega (
        arith,
        in_flight-append before (holding i n ∷ after),
        in_flight-append before (idle ∷ after),
        v.total,
        sent_sum-update_at i n c.per_stream l,
      );
      handles =
          rw (length-update_at i (sent_by n) c.per_stream)
            (All-replace (length c.per_stream) before after (holding i n) idle (λ u. tt) v.handles);
    }

-- In every state that tasks reach, whatever the order of their steps, the books balance.
pub Steps-IsBalanced :
    {F : Type 0} {c d : MeasurementsCollector F} {ts us : List Task}
    → Steps c ts d us
    → IsBalanced c ts
    → IsBalanced d us
Steps-IsBalanced done v = v
Steps-IsBalanced (step s ss) v = Steps-IsBalanced ss (Step-IsBalanced s v)

sum_by-map_streams :
    (duration : ℕ) (ss : List PerStreamMeasurements)
    → sum_by (λ s. s.bytes_sent) (map (to_stream_stats duration) ss) ≡ sent_sum ss
unfolding to_stream_stats
sum_by-map_streams duration [] = refl
sum_by-map_streams duration (s ∷ ss) = omega (arith, sum_by-map_streams duration ss)

abbrev pub IsIdle : Task → Type 0
IsIdle t = t ≡ idle

in_flight-IsIdle : (ts : List Task) → All IsIdle ts → in_flight ts ≡ 0
in_flight-IsIdle [] v = refl
in_flight-IsIdle (idle ∷ ts) v = in_flight-IsIdle ts v.1
in_flight-IsIdle (counted s n ∷ ts) v = absurd (cc (v.0))
in_flight-IsIdle (holding i n ∷ ts) v = absurd (cc (v.0))

IsIdle-IsValidIn : (n : ℕ) (ts : List Task) → All IsIdle ts → All (IsValidIn n) ts
IsIdle-IsValidIn n [] v = tt
IsIdle-IsValidIn n (idle ∷ ts) v = (tt, IsIdle-IsValidIn n ts v.1)
IsIdle-IsValidIn n (counted s b ∷ ts) v = absurd (cc (v.0))
IsIdle-IsValidIn n (holding i b ∷ ts) v = absurd (cc (v.0))

pub get-fields :
    {F : Type 0} (c : MeasurementsCollector F)
    → ((get c).total_bytes_sent ≡ c.atomic_bytes_sent)
      × ((get c).streams ≡ map (to_stream_stats c.inner.total_duration) c.per_stream)
unfolding get
get-fields c = ground arith

module _ (fl : Float) {c : MeasurementsCollector (fl.F)} {start end : List Task} where
  -- Tasks that call `record_bytes_sent` in any interleaving, and are all outside at the end, leave
  -- a snapshot whose total is the sum of its streams, modulo 2^64.
  pub get-Steps :
      Steps (collector_new fl) start c end
      → All IsIdle start
      → All IsIdle end
      → (get c).total_bytes_sent % 2 ^ 64 ≡ sum_by (λ s. s.bytes_sent) (get c).streams % 2 ^ 64
  unfolding collector_new
  get-Steps ss i j =
      let v : IsBalanced c end = Steps-IsBalanced ss (record {
        total = omega (arith, in_flight-IsIdle start i);
        handles = IsIdle-IsValidIn 0 start i;
      }) in
      let (t, s) = get-fields c in
      rw (t, s)
        (omega (
          arith,
          v.total,
          in_flight-IsIdle end j,
          sum_by-map_streams c.inner.total_duration c.per_stream,
        ))
