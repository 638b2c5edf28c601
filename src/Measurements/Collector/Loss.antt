-- ===== src/Measurements/Collector/Loss.antt =====
-- The loss and reordering that `record_udp_packet_received` and `calculate_udp_loss` of
-- src/measurements.rs find, against what arrived.
use rperf3_rs.Base.{
  ℕ, zero, suc, ◌+◌, ◌%◌, ◌^◌, ◌<◌, ◌≤◌, ◌≡◌, refl, ap₂, List, [], ◌∷◌, some, arith, subst, dec_lt,
  length, add64, u64_max, All, Bool, false, if◌then◌else◌, ltb, ◌==◌, ◌||◌, max,
}
use rperf3_rs.Base.Float.{Float}
use rperf3_rs.Measurements.Collector.{
  MeasurementsCollector, calculate_udp_loss, record_udp_packet_received, receive_packet, track_max,
  is_late, collector_new, udp_state_default,
}

-- A packet as it arrives: its number, when it was sent and when it was received.
pub record Arrival : Type 0 where
  pub sequence : ℕ
  pub send : ℕ
  pub recv : ℕ

-- The packets, in the order of their arrival.
unfoldable pub receive_all :
    (fl : Float) → MeasurementsCollector (fl.F) → List Arrival → MeasurementsCollector (fl.F)
receive_all fl c [] = c
receive_all fl c (a ∷ rest) =
    receive_all fl (record_udp_packet_received fl c a.sequence a.send a.recv) rest

abbrev pub mem : ℕ → List Arrival → Bool
mem n [] = false
mem n (a ∷ rest) = (a.sequence == n) || mem n rest

-- How many numbers below `n` did not arrive.
abbrev pub missing : ℕ → List Arrival → ℕ
missing zero rest = 0
missing (suc n) rest = missing n rest + (if mem n rest then 0 else 1)

-- No number arrives twice.
abbrev pub IsDistinct : List Arrival → Type 0
IsDistinct [] = Unit
IsDistinct (a ∷ rest) = (mem a.sequence rest ≡ false) × IsDistinct rest

-- The greatest number.
abbrev pub greatest : ℕ → List Arrival → ℕ
greatest m [] = m
greatest m (a ∷ rest) = greatest (max m a.sequence) rest

-- How often a number is smaller than the one before it.
abbrev pub descents : ℕ → List Arrival → ℕ
descents last [] = 0
descents last (a ∷ rest) = (if ltb a.sequence last then 1 else 0) + descents a.sequence rest

abbrev pub IsSequence : Arrival → Type 0
IsSequence a = a.sequence < u64_max

missing-nil : (n : ℕ) → missing n [] ≡ n
missing-nil zero = refl
missing-nil (suc n) = omega (arith, missing-nil n)

missing-above :
    (n : ℕ) (a : Arrival) (rest : List Arrival)
    → n ≤ a.sequence
    → missing n (a ∷ rest) ≡ missing n rest
missing-above zero a rest h = refl
missing-above (suc n) a rest h = let r = missing-above n a rest (omega arith) in ground arith

missing-cons :
    (n : ℕ) (a : Arrival) (rest : List Arrival)
    → a.sequence < n
    → mem a.sequence rest ≡ false
    → missing n (a ∷ rest) + 1 ≡ missing n rest
missing-cons zero a rest h k = absurd (omega arith)
missing-cons (suc n) a rest h k = elim (dec_lt a.sequence n) [
  | yes l ↦ let r = missing-cons n a rest l k in ground arith
  | no nl ↦
      let e : a.sequence ≡ n = omega arith in
      let r = missing-above n a rest (omega arith) in
      let f : mem n rest ≡ false = subst (λ i. mem i rest ≡ false) e k in ground arith
]

-- Of the numbers below a bound, as many are missing as did not arrive.
pub length-missing :
    (n : ℕ) (rest : List Arrival)
    → IsDistinct rest
    → All (λ a. a.sequence < n) rest
    → length rest + missing n rest ≡ n
length-missing n [] d h = omega (arith, missing-nil n)
length-missing n (a ∷ rest) d h =
    omega (arith, missing-cons n a rest h.0 d.0, length-missing n rest d.1 h.1)

module _ (fl : Float) where
  -- A packet, once one came before.
  receive_one :
      (c : MeasurementsCollector (fl.F)) (last m : ℕ) (a : Arrival)
      → c.udp_state.last_sequence ≡ some last
      → c.udp_state.max_sequence ≡ some m
      → IsSequence a
      → let s = (record_udp_packet_received fl c a.sequence a.send a.recv).udp_state in
        (s.last_sequence ≡ some a.sequence)
        × (s.max_sequence ≡ some (max m a.sequence))
        × (s.received_count ≡ (c.udp_state.received_count + 1) % 2 ^ 64)
        × (s.out_of_order % 2 ^ 64
            ≡ (c.udp_state.out_of_order + (if ltb a.sequence last then 1 else 0)) % 2 ^ 64)
  unfolding record_udp_packet_received receive_packet track_max is_late
  receive_one c last m a el em v =
      let t : (a.sequence == u64_max) ≡ false = ground arith in
      rw (t, el, em) (refl, ground arith, refl, ground arith)

  -- What the collector knows once a packet came, and what further packets add.
  receive_from :
      (c : MeasurementsCollector (fl.F)) (last m : ℕ) (rest : List Arrival)
      → c.udp_state.last_sequence ≡ some last
      → c.udp_state.max_sequence ≡ some m
      → c.udp_state.received_count < 2 ^ 64
      → All IsSequence rest
      → let s = (receive_all fl c rest).udp_state in
        (s.max_sequence ≡ some (greatest m rest))
        × (s.received_count ≡ (c.udp_state.received_count + length rest) % 2 ^ 64)
        × (s.out_of_order % 2 ^ 64 ≡ (c.udp_state.out_of_order + descents last rest) % 2 ^ 64)
  unfolding receive_all
  receive_from c last m [] el em k v = (em, omega arith, omega arith)
  receive_from c last m (a ∷ rest) el em k v =
      let d = record_udp_packet_received fl c a.sequence a.send a.recv in
      let (l', m', n', o') = receive_one c last m a el em v.0 in
      let (x, y, z) =
        receive_from d a.sequence (max m a.sequence) rest l' m' (omega (arith, n')) v.1 in
      (x, omega (arith, y, n'), omega (arith, z, o'))

  -- The first packet.
  receive_first :
      (a : Arrival)
      → IsSequence a
      → let s =
          (record_udp_packet_received fl (collector_new fl) a.sequence a.send a.recv).udp_state in
        (s.last_sequence ≡ some a.sequence)
        × (s.max_sequence ≡ some a.sequence)
        × (s.received_count ≡ 1)
        × (s.out_of_order ≡ 0)
  unfolding record_udp_packet_received receive_packet track_max is_late collector_new
      udp_state_default
  receive_first a v =
      let t : (a.sequence == u64_max) ≡ false = ground arith in rw t (refl, refl, refl, refl)

  -- The state after all packets of a test.
  pub receive_all-new :
      (a : Arrival) (rest : List Arrival)
      → All IsSequence (a ∷ rest)
      → let s = (receive_all fl (collector_new fl) (a ∷ rest)).udp_state in
        (s.max_sequence ≡ some (greatest a.sequence rest))
        × (s.received_count ≡ length (a ∷ rest) % 2 ^ 64)
        × (s.out_of_order % 2 ^ 64 ≡ descents a.sequence rest % 2 ^ 64)
  unfolding receive_all
  receive_all-new a rest v =
      let d = record_udp_packet_received fl (collector_new fl) a.sequence a.send a.recv in
      let (l', m', n', o') = receive_first a v.0 in
      let (x, y, z) = receive_from d a.sequence a.sequence rest l' m' (omega (arith, n')) v.1 in
      (x, omega (arith, y, n'), omega (arith, z, o'))

-- The greatest number is one of those that came, and bounds them.
greatest-lt :
    (m n : ℕ) (rest : List Arrival) → m < n → All (λ a. a.sequence < n) rest → greatest m rest < n
greatest-lt m n [] h v = h
greatest-lt m n (a ∷ rest) h v = greatest-lt (max m a.sequence) n rest (omega arith) v.1

greatest_ge : (m : ℕ) (rest : List Arrival) → m ≤ greatest m rest
greatest_ge m [] = omega arith
greatest_ge m (a ∷ rest) = omega (arith, greatest_ge (max m a.sequence) rest)

greatest-bounds : (m : ℕ) (rest : List Arrival) → All (λ a. a.sequence < greatest m rest + 1) rest
greatest-bounds m [] = tt
greatest-bounds m (a ∷ rest) =
    (omega (arith, greatest_ge (max m a.sequence) rest), greatest-bounds (max m a.sequence) rest)

module _ (fl : Float) (a : Arrival) (rest : List Arrival) (v : All IsSequence (a ∷ rest))
    (d : IsDistinct (a ∷ rest)) where
  bound : All (λ b. b.sequence < greatest a.sequence rest + 1) (a ∷ rest)
  bound = (omega (arith, greatest_ge a.sequence rest), greatest-bounds a.sequence rest)

  -- However the packets of a test are reordered, if none comes twice, the lost ones are exactly the
  -- numbers up to the greatest that did not come, and the expected ones are all of these.
  pub calculate_udp_loss-receive_all :
      calculate_udp_loss (receive_all fl (collector_new fl) (a ∷ rest))
      ≡ (missing (greatest a.sequence rest + 1) (a ∷ rest), greatest a.sequence rest + 1)
  unfolding calculate_udp_loss
  calculate_udp_loss-receive_all =
      let (x, y, z) = receive_all-new fl a rest v in
      let g = greatest a.sequence rest in
      let l = length-missing (g + 1) (a ∷ rest) d bound in
      let t : g < u64_max = greatest-lt a.sequence u64_max rest v.0 v.1 in
      let e : add64 g 1 ≡ g + 1 = omega arith in
      rw (x, y) (ap₂ (λ i j. (i, j)) (omega (arith, l, t)) e)
