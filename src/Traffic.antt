-- ===== src/Traffic.antt =====
-- What the loops of src/client.rs and src/server.rs that move a test's traffic share: their variables,
-- the interval report, and how a loop runs and ends. A round of a loop is what the clocks, the
-- cancellation token and the socket say in it; `start.elapsed()` stops at 0.
pub mod Books
pub mod Pacing
pub mod Tcp
pub mod UdpReceive
pub mod UdpSend
pub mod UdpBatched
pub mod Lossless
mod Tests
use rperf3_rs.Base.{
  ℕ, ◌+◌, ◌-◌, ◌/◌, ◌%◌, ◌^◌, ◌≡◌, refl, ap, ◌∙◌, arith, ◌||◌, Option, none, some, List, [], ◌∷◌,
  ◌++◌, Bool, true, false, if◌then◌else◌, ltb, leb, All, All-Unit,
}
use rperf3_rs.Base.Float.{Float}
use rperf3_rs.Measurements.Data.{rate_over}
use rperf3_rs.Measurements.Collector.{MeasurementsCollector, collect_interval, collect_duration}
use rperf3_rs.Reporter.{IntervalReport, IntervalMessage, report_msg, complete_msg}

-- What a loop does not change: its start, the settings, and the ids that it records and reports.
pub record Plan : Type 0 where
  pub start : ℕ
  pub duration : ℕ
  pub interval : ℕ
  pub stream_id : ℕ
  pub report_id : ℕ

-- The variables of a loop, the collector, and the messages sent to the reporter. The TCP loops have
-- no `interval_packets`, the UDP loops no `last_retransmits`.
pub record Transfer (F : Type 0) : Type 0 where
  pub collector : MeasurementsCollector F
  pub interval_bytes : ℕ
  pub interval_packets : ℕ
  pub last_interval : ℕ
  pub last_retransmits : ℕ
  pub messages : List (IntervalMessage F)

unfoldable pub transfer_new : {F : Type 0} → MeasurementsCollector F → ℕ → Transfer F
transfer_new collector start = record {
  collector = collector;
  interval_bytes = 0;
  interval_packets = 0;
  last_interval = start;
  last_retransmits = 0;
  messages = [];
}

-- The clocks of an interval report, in the order in which they are read.
pub record Clock : Type 0 where
  pub check : ℕ
  pub elapsed_at : ℕ
  pub interval_at : ℕ
  pub reset_at : ℕ

-- The fields of a report in which the loops differ.
pub record Details (F : Type 0) : Type 0 where
  pub packets : Option ℕ
  pub jitter_ms : Option F
  pub lost_packets : Option ℕ
  pub lost_percent : Option F
  pub retransmits : Option ℕ
  pub cwnd : Option ℕ

-- `last_interval.elapsed() >= config.interval`
unfoldable pub is_due : {F : Type 0} → Plan → Transfer F → Clock → Bool
is_due plan t clock = leb plan.interval (clock.check - t.last_interval)

unfoldable pub interval_start_of : ℕ → ℕ → ℕ
interval_start_of elapsed interval_duration =
    if ltb interval_duration elapsed then elapsed - interval_duration else 0

module _ (fl : Float) where
  open fl use {F}

  -- The interval that a report describes, `packets` its number of packets for the collector.
  unfoldable pub close_interval : Plan → Transfer F → Clock → ℕ → Details F → Transfer F
  close_interval plan t clock packets details =
      let elapsed = clock.elapsed_at - plan.start in
      let interval_duration = clock.interval_at - t.last_interval in
      let bps = rate_over fl t.interval_bytes interval_duration in
      let interval_start = interval_start_of elapsed interval_duration in
      record t {
        collector = collect_interval t.collector (record {
          start = interval_start;
          end = elapsed;
          bytes = t.interval_bytes;
          bits_per_second = bps;
          packets = packets;
        });
        messages =
            t.messages
            ++ (report_msg (record {
              stream_id = plan.report_id;
              interval_start = interval_start;
              interval_end = elapsed;
              bytes = t.interval_bytes;
              bits_per_second = bps;
              packets = details.packets;
              jitter_ms = details.jitter_ms;
              lost_packets = details.lost_packets;
              lost_percent = details.lost_percent;
              retransmits = details.retransmits;
              cwnd = details.cwnd;
            })
                ∷ []);
        interval_bytes = 0;
        interval_packets = 0;
        last_interval = clock.reset_at;
      }

-- `reporter.complete()`, and the duration that the loop took
unfoldable pub end_transfer : {F : Type 0} → Plan → Transfer F → ℕ → Transfer F
end_transfer plan t ended_at = record t {
  messages = t.messages ++ (complete_msg ∷ []);
  collector = collect_duration t.collector (ended_at - plan.start);
}

-- Whether a loop goes on after a round, or was left.
pub data Stage (S : Type 0) : Type 0 where
  running : S → Stage S
  ended : S → Stage S

abbrev pub state_of : {S : Type 0} → Stage S → S
state_of (running s) = s
state_of (ended s) = s

abbrev pub is_ended : {S : Type 0} → Stage S → Bool
is_ended (running s) = false
is_ended (ended s) = true

-- A guard keeps what both branches have.
pub if_keeps :
    {S : Type 0} (P : S → Type 0) (b : Bool) (q r : Stage S)
    → P (state_of q)
    → P (state_of r)
    → P (state_of (if b then q else r))
if_keeps P true q r x y = x
if_keeps P false q r x y = y

-- A measure of the state that grows, modulo 2^64, by what the rounds bring, where whether a round
-- ends the loop and what it brings depend on the round alone.
abbrev pub brought : {X : Type 0} → (X → Bool) → (X → ℕ) → List X → ℕ
brought stops amount [] = 0
brought stops amount (x ∷ xs) =
    let rest = brought stops amount xs in if stops x then 0 else amount x + rest

abbrev pub any_stop : {X : Type 0} → (X → Bool) → List X → Bool
any_stop stops [] = false
any_stop stops (x ∷ xs) = stops x || any_stop stops xs

-- A round that stops leaves the measure, and ends the loop; another adds its amount.
abbrev pub IsRound : {S : Type 0} → (S → ℕ) → S → Bool → ℕ → Stage S → Type 0
IsRound value s stop amount (ended u) = (stop ≡ true) × (value u ≡ value s)
IsRound value s stop amount (running u) =
    (stop ≡ false) × (value u % 2 ^ 64 ≡ (value s + amount) % 2 ^ 64)

-- The rounds before the first that ends a loop, and what they do to a value one after another.
abbrev pub before : {X : Type 0} → (X → Bool) → List X → List X
before stops [] = []
before stops (x ∷ xs) = let rest = before stops xs in if stops x then [] else x ∷ rest

abbrev pub fold : {U X : Type 0} → (U → X → U) → U → List X → U
fold f u [] = u
fold f u (x ∷ xs) = fold f (f u x) xs

-- A round that stops leaves the value, and ends the loop; another changes it as given.
abbrev pub IsChange : {S U : Type 0} → (S → U) → U → U → Bool → Stage S → Type 0
IsChange value old new stop (ended u) = (stop ≡ true) × (value u ≡ old)
IsChange value old new stop (running u) = (stop ≡ false) × (value u ≡ new)

module _ {S X : Type 0} (step : S → X → Stage S) where
  -- A loop whose body is `step`, over the rounds that there are.
  unfoldable pub run_loop : S → List X → Stage S
  run_loop s [] = running s
  run_loop s (x ∷ xs) = elim (step s x) [ ended u ↦ ended u | running u ↦ run_loop u xs ]

  -- What every round of a kind keeps, a loop over such rounds keeps.
  pub run_loop-keeps {κ ι} :
      (P : S → Type κ) (H : X → Type ι)
      → ((s : S) (x : X) → H x → P s → P (state_of (step s x)))
      → (s : S) (xs : List X) → All H xs
      → P s
      → P (state_of (run_loop s xs))
  unfolding run_loop
  run_loop-keeps P H keep s [] h p = p
  run_loop-keeps P H keep s (x ∷ xs) h p =
      go (step s x) (keep s x h.0 p) (λ u. run_loop-keeps P H keep u xs h.1)
    where
      go :
          (r : Stage S)
          → P (state_of r)
          → ((u : S) → P u → P (state_of (run_loop u xs)))
          → P (state_of (elim r [ ended u ↦ ended u | running u ↦ run_loop u xs ]))
      go (ended u) q f = q
      go (running u) q f = f u q

  -- What every round keeps, the loop keeps.
  pub run_loop-keeps_any {κ} :
      (P : S → Type κ)
      → ((s : S) (x : X) → P s → P (state_of (step s x)))
      → (s : S) (xs : List X) → P s
      → P (state_of (run_loop s xs))
  run_loop-keeps_any P keep s xs p =
      run_loop-keeps P (λ x. Unit) (λ s x h. keep s x) s xs (All-Unit xs) p

  pub run_loop-brought :
      (stops : X → Bool) (amount : X → ℕ) (value : S → ℕ)
      → ((s : S) (x : X) → IsRound value s (stops x) (amount x) (step s x))
      → (s : S) (xs : List X)
      → let r = run_loop s xs in
        (value (state_of r) % 2 ^ 64 ≡ (value s + brought stops amount xs) % 2 ^ 64)
        × (is_ended r ≡ any_stop stops xs)
  unfolding run_loop
  run_loop-brought stops amount value h s [] = (omega arith, refl)
  run_loop-brought stops amount value h s (x ∷ xs) =
      go (step s x) (h s x) (λ u. run_loop-brought stops amount value h u xs)
    where
      go :
          (r : Stage S)
          → IsRound value s (stops x) (amount x) r
          → ((u : S)
              → let q = run_loop u xs in
                (value (state_of q) % 2 ^ 64 ≡ (value u + brought stops amount xs) % 2 ^ 64)
                × (is_ended q ≡ any_stop stops xs))
          → let q : Stage S = elim r [ ended u ↦ ended u | running u ↦ run_loop u xs ] in
            (value (state_of q) % 2 ^ 64 ≡ (value s + brought stops amount (x ∷ xs)) % 2 ^ 64)
            × (is_ended q ≡ any_stop stops (x ∷ xs))
      go (ended u) (e, v) f = rw e (omega (arith, v), refl)
      go (running u) (e, v) f = let (w, b) = f u in rw e (omega (arith, v, w), b)

  pub run_loop-fold :
      {U : Type 0} (stops : X → Bool) (value : S → U) (f : U → X → U)
      → ((s : S) (x : X) → IsChange value (value s) (f (value s) x) (stops x) (step s x))
      → (s : S) (xs : List X)
      → let r = run_loop s xs in
        (value (state_of r) ≡ fold f (value s) (before stops xs)) × (is_ended r ≡ any_stop stops xs)
  unfolding run_loop
  run_loop-fold stops value f h s [] = (refl, refl)
  run_loop-fold {U = U} stops value f h s (x ∷ xs) =
      go (step s x) (h s x) (λ u. run_loop-fold stops value f h u xs)
    where
      go :
          (r : Stage S)
          → IsChange value (value s) (f (value s) x) (stops x) r
          → ((u : S)
              → let q = run_loop u xs in
                (value (state_of q) ≡ fold f (value u) (before stops xs))
                × (is_ended q ≡ any_stop stops xs))
          → let q : Stage S = elim r [ ended u ↦ ended u | running u ↦ run_loop u xs ] in
            (value (state_of q) ≡ fold f (value s) (before stops (x ∷ xs)))
            × (is_ended q ≡ any_stop stops (x ∷ xs))
      go (ended u) (e, v) k = rw e (v, refl)
      go (running u) (e, v) k =
          let (w, b) = k u in rw e (w ∙ ap (λ i. fold f i (before stops xs)) v, b)

-- A loop that was left ends the transfer; `none` while it goes on.
unfoldable pub finish_loop : {F : Type 0} → Plan → Stage (Transfer F) → ℕ → Option (Transfer F)
finish_loop plan (running t) ended_at = none
finish_loop plan (ended t) ended_at = some (end_transfer plan t ended_at)

pub finish_loop-ended :
    {F : Type 0} (plan : Plan) (r : Stage (Transfer F)) (ended_at : ℕ)
    → is_ended r ≡ true
    → finish_loop plan r ended_at ≡ some (end_transfer plan (state_of r) ended_at)
unfolding finish_loop
finish_loop-ended plan (running t) ended_at e = cc
finish_loop-ended plan (ended t) ended_at e = refl
