-- ===== src/UdpPacket/Timestamp.antt =====
-- The cached timestamps of src/udp_packet.rs against the readings of the system clock. Nothing is
-- assumed of the system clock, which may step back.
use rperf3_rs.Base.{
  ℕ, ◌+◌, ◌-◌, ◌*◌, ◌/◌, ◌%◌, ◌^◌, ◌≤◌, ◌<◌, ◌≡◌, refl, List, [], ◌∷◌, All, arith, Bool-cases, inl,
  inr, ◌⊎◌, leb,
}
use mathlib.Core.List.{Mem, mem-cons_of_mem, mem-cons_self}
use rperf3_rs.UdpPacket.{TimestampCache, Readings, get_timestamp, cache_new, elapsed_us}

-- A call reads its instants in order, and they are less than 2^64 microseconds.
abbrev pub IsCall : Readings → Type 0
IsCall r = (r.elapsed_at ≤ r.updated_at) × (r.elapsed_at < 1000 * 2 ^ 64)

-- The timestamps of calls on a thread's cache, one after another.
unfoldable pub stamps : TimestampCache → List Readings → List ℕ
stamps c [] = []
stamps c (r ∷ rs) = (get_timestamp c r).0 ∷ stamps (get_timestamp c r).1 rs

-- A timestamp of a call `r` that is extrapolated from the reading `a` of the system clock: that reading
-- was taken less than a millisecond before the call, and the microseconds since are added to it.
pub record IsExtrapolated (a r : Readings) (t : ℕ) : Type 0 where
  pub recent : r.elapsed_at < a.updated_at + 1000000
  pub value : t ≡ (a.wall_us + (r.elapsed_at - a.updated_at) / 1000) % 2 ^ 64

-- Each timestamp is extrapolated from a reading of its own call or of one before, `seen` those before
-- the first.
abbrev pub AreExtrapolated : List Readings → List Readings → List ℕ → Type 0
AreExtrapolated seen [] [] = Unit
AreExtrapolated seen (r ∷ rs) (t ∷ ts) =
    ((a : Readings) × Mem a (r ∷ seen) × IsExtrapolated a r t) × AreExtrapolated (r ∷ seen) rs ts
AreExtrapolated seen _ _ = ⊥

-- The cache is from a reading.
record IsFrom (a : Readings) (c : TimestampCache) : Type 0 where
  pub cached : c.cached_timestamp_us ≡ a.wall_us % 2 ^ 64
  pub updated : c.last_update ≡ a.updated_at
  pub interval : c.update_interval_us ≡ 1000

cache_new-IsFrom : (a : Readings) → IsFrom a (cache_new a)
unfolding cache_new
cache_new-IsFrom a = record { cached = refl; updated = refl; interval = refl }

-- A call either keeps the cache and extrapolates from it, or refreshes it.
get_timestamp-cases :
    (a : Readings) (c : TimestampCache) (r : Readings)
    → IsFrom a c
    → IsCall r
    → (IsFrom a (get_timestamp c r).1 × IsExtrapolated a r (get_timestamp c r).0)
      ⊎ (IsFrom r (get_timestamp c r).1 × IsExtrapolated r r (get_timestamp c r).0)
unfolding get_timestamp
get_timestamp-cases a c r f h = elim (Bool-cases (leb c.update_interval_us (elapsed_us c r))) [
  | inl e ↦ rw e (
      inr (
        record { cached = refl; updated = refl; interval = f.interval },
        record { recent = omega (arith, h.0); value = omega (arith, h.0) },
      ))
  | inr e ↦
      let young : elapsed_us c r < 1000 = ground (arith, f.interval) in
      rw e (
        inl (
          f,
          record {
            recent = omega (arith, young, f.updated, h.1);
            value = omega (arith, young, f.cached, f.updated, h.1);
          },
        ))
]

stamps_from-AreExtrapolated :
    (a : Readings) (c : TimestampCache) (seen rs : List Readings)
    → Mem a seen
    → IsFrom a c
    → All IsCall rs
    → AreExtrapolated seen rs (stamps c rs)
unfolding stamps
stamps_from-AreExtrapolated a c seen [] m f h = tt
stamps_from-AreExtrapolated a c seen (r ∷ rs) m f h =
    let c1 = (get_timestamp c r).1 in
    elim (get_timestamp-cases a c r f h.0) [
      | inl (g, x) ↦ (
        (a, mem-cons_of_mem r m, x),
        stamps_from-AreExtrapolated a c1 (r ∷ seen) rs (mem-cons_of_mem r m) g h.1,
      )
      | inr (g, x) ↦ (
        (r, mem-cons_self, x),
        stamps_from-AreExtrapolated r c1 (r ∷ seen) rs mem-cons_self g h.1,
      )
    ]

-- Over any calls of a thread, the instants of each in order and below 2^64 microseconds, every timestamp
-- is a reading of the system clock, taken by its own call, by one before or at the cache's creation,
-- plus the microseconds since: modulo 2^64, and the reading was taken less than a millisecond before
-- the call. The system clock may step.
pub stamps-AreExtrapolated :
    (made : Readings) (rs : List Readings)
    → All IsCall rs
    → AreExtrapolated (made ∷ []) rs (stamps (cache_new made) rs)
stamps-AreExtrapolated made rs h =
    stamps_from-AreExtrapolated made (cache_new made) (made ∷ []) rs mem-cons_self
      (cache_new-IsFrom made) h
