-- ===== src/TokenBucket/Rate.antt =====
-- The rate that the bucket lets through, over any sequence of calls.
use rperf3_rs.Base.{
  ℕ, ◌+◌, ◌-◌, ◌*◌, ◌/◌, ◌^◌, ◌≤◌, ◌<◌, ◌≡◌, refl, ap, ◌∙◌, inl, inr, arith, max, List, [], ◌∷◌,
}
use rperf3_rs.Base.Int.{pos_part, neg_part, as_i64, as_i64_small, sub_i64, one_part}
use rperf3_rs.TokenBucket.{TokenBucket, new, refill, wait, consume}
use rperf3_rs.TokenBucket.Refill.{
  IsSafe, IsPaid, IsPaid-refl, max_gap, refill-IsPaid, IsSafe-of, refill-filled, neg_part-refill-le,
  last_refill-refill,
}
use rperf3_rs.TokenBucket.Debt.{
  IsLimited, IsTimed, debt_limit, missing_after_wait, taken_parts, missing, wait_cases,
}

IsPaid-trans : {a b c : TokenBucket} {m n : ℕ} → IsPaid a b m → IsPaid b c n → IsPaid a c (m + n)
IsPaid-trans {b} {c} p q = record {
  paid =
      omega
        (arith, ap (λ r. r * b.last_refill) p.same_rate, ap (λ r. r * c.last_refill) p.same_rate);
  same_rate = q.same_rate ∙ p.same_rate;
  same_capacity = q.same_capacity ∙ p.same_capacity;
  same_nanos = q.same_nanos ∙ p.same_nanos;
}

-- The bytes are taken from a bucket that misses no more than the limit.
taken : TokenBucket → ℕ → TokenBucket
taken b n = record b { tokens = sub_i64 b.tokens (as_i64 n) }

module _ {most n : ℕ} {b : TokenBucket} (small : most ≤ 2 ^ 32) (fits : n ≤ most)
    (v : IsSafe b) where
  parts :
      missing n b.tokens ≤ debt_limit most b
      → (pos_part (sub_i64 b.tokens (as_i64 n)) ≡ pos_part b.tokens - (n + neg_part b.tokens))
        × (neg_part (sub_i64 b.tokens (as_i64 n)) ≡ missing n b.tokens)
  parts h =
      taken_parts n b.tokens (omega arith) (ground (arith, one_part b.tokens, v.rate_le))
        (ground (arith, one_part b.capacity, v.filled, v.capacity_in))

  taken-IsPaid : missing n b.tokens ≤ debt_limit most b → IsPaid b (taken b n) n
  unfolding taken
  taken-IsPaid h = record {
    paid = ground (arith, parts h, one_part b.tokens);
    same_rate = refl;
    same_capacity = refl;
    same_nanos = refl;
  }

  taken-IsSafe : missing n b.tokens ≤ debt_limit most b → IsSafe (taken b n)
  unfolding taken
  taken-IsSafe h =
      IsSafe-of v refl refl (ground (arith, parts h, v.filled, one_part b.tokens))
        (omega (arith, parts h, v.rate_le))

-- The refills of one call, at the clock's readings.
module _ {most n : ℕ} {b : TokenBucket} (now woken : ℕ) (small : most ≤ 2 ^ 32) (fits : n ≤ most)
    (v : IsLimited most b) (t : IsTimed b n now woken) where
  refill-IsLimited : IsLimited most (refill b now)
  refill-IsLimited =
      let p = refill-IsPaid now v.safe (omega (arith, t)) t.later in
      record {
        safe =
            IsSafe-of v.safe p.same_rate p.same_capacity
              (refill-filled now v.safe (omega (arith, t)))
              (omega (arith, neg_part-refill-le now v.safe (omega (arith, t)), v.safe.debt_in));
        rate_pos = rw p.same_rate v.rate_pos;
        nanos = rw (p.same_nanos, p.same_rate) v.nanos;
        debt =
            rw p.same_rate
              (omega (arith, neg_part-refill-le now v.safe (omega (arith, t)), v.debt));
      }

  waited : TokenBucket
  waited = (wait (refill b now) (as_i64 n) woken).0

  last_refill-refill-le : (refill b now).last_refill ≤ now
  last_refill-refill-le = omega (arith, t.later, last_refill-refill now v.safe (omega (arith, t)))

  refill_soon : woken < (refill b now).last_refill + max_gap
  refill_soon = omega (arith, t.soon, t.later, last_refill-refill now v.safe (omega (arith, t)))

  refill_awake : (refill b now).last_refill + (wait (refill b now) (as_i64 n) woken).1 ≤ woken
  refill_awake =
      let s : now + (wait (refill b now) (as_i64 n) woken).1 ≤ woken = unfold consume in t.slept in
      omega (arith, s, last_refill-refill-le)

  waited-IsPaid : IsPaid (refill b now) waited 0
  unfolding waited
  waited-IsPaid = elim (wait_cases (refill b now) (as_i64 n) woken) [
    | inl (stay, enough) ↦ rw (stay, waited) (IsPaid-refl (refill b now))
    | inr (sleep, less) ↦
        rw (sleep, waited)
          (refill-IsPaid woken refill-IsLimited.safe (omega (arith, refill_soon))
            (omega (arith, refill_awake)))
  ]

  waited-IsSafe : IsSafe waited
  unfolding waited
  waited-IsSafe = elim (wait_cases (refill b now) (as_i64 n) woken) [
    | inl (stay, enough) ↦ rw (stay, waited) refill-IsLimited.safe
    | inr (sleep, less) ↦
        let p =
          refill-IsPaid woken refill-IsLimited.safe (omega (arith, refill_soon))
            (omega (arith, refill_awake)) in
        rw (sleep, waited)
          (IsSafe-of refill-IsLimited.safe p.same_rate p.same_capacity
            (refill-filled woken refill-IsLimited.safe (omega (arith, refill_soon)))
            (omega (
              arith,
              neg_part-refill-le woken refill-IsLimited.safe (omega (arith, refill_soon)),
              refill-IsLimited.safe.debt_in,
            )))
  ]

  last_refill-waited-le : waited.last_refill ≤ woken
  unfolding waited
  last_refill-waited-le = elim (wait_cases (refill b now) (as_i64 n) woken) [
    | inl (stay, enough) ↦ rw (stay, waited) (omega (arith, refill_awake))
    | inr (sleep, less) ↦
        rw (sleep, waited)
          (omega (
            arith,
            refill_awake,
            last_refill-refill {b = refill b now} woken refill-IsLimited.safe
                (omega (arith, refill_soon)),
          ))
  ]

  waited-missing : missing n waited.tokens ≤ debt_limit most waited
  unfolding waited
  waited-missing =
      rw waited-IsPaid.same_rate
        (missing_after_wait woken small fits refill-IsLimited refill_soon refill_awake)

  consume-taken : (consume b n now woken).0 ≡ taken waited n
  unfolding consume waited taken
  consume-taken = refl

  -- A call keeps the limit on the debt, pays for its bytes, and leaves the clock's last reading.
  pub consume-IsLimited :
      IsLimited most (consume b n now woken).0
      × IsPaid b (consume b n now woken).0 n
      × ((consume b n now woken).0.last_refill ≤ woken)
  consume-IsLimited = rw consume-taken (limited, all_paid, last_refill-taken)
    where
      total : 0 + (0 + n) ≡ n
      total = omega arith

      all_paid : IsPaid b (taken waited n) n
      all_paid = rw total at (
          IsPaid-trans (refill-IsPaid now v.safe (omega (arith, t)) t.later)
            (IsPaid-trans waited-IsPaid (taken-IsPaid small fits waited-IsSafe waited-missing)))

      last_refill-taken : (taken waited n).last_refill ≤ woken
      last_refill-taken = unfold taken in last_refill-waited-le

      debt-taken : neg_part (taken waited n).tokens ≤ debt_limit most (taken waited n)
      debt-taken =
          unfold taken in
          omega (arith, parts small fits waited-IsSafe waited-missing, waited-missing)

      limited : IsLimited most (taken waited n)
      limited = record {
        safe = taken-IsSafe small fits waited-IsSafe waited-missing;
        rate_pos = rw all_paid.same_rate v.rate_pos;
        nanos = rw (all_paid.same_nanos, all_paid.same_rate) v.nanos;
        debt = debt-taken;
      }

-- A call of `consume` with the clock's readings.
pub record Call : Type 0 where
  pub bytes : ℕ
  pub now : ℕ
  pub woken : ℕ

unfoldable pub consume_all : TokenBucket → List Call → TokenBucket
consume_all b [] = b
consume_all b (c ∷ cs) = consume_all (consume b c.bytes c.now c.woken).0 cs

abbrev pub total_bytes : List Call → ℕ
total_bytes [] = 0
total_bytes (c ∷ cs) = c.bytes + total_bytes cs

-- Each call comes after what the bucket has seen, with at most `most` bytes.
abbrev pub AllTimed : ℕ → TokenBucket → List Call → Type 0
AllTimed most b [] = Unit {0}
AllTimed most b (c ∷ cs) =
    (c.bytes ≤ most)
    × IsTimed b c.bytes c.now c.woken
    × AllTimed most (consume b c.bytes c.now c.woken).0 cs

pub consume_all-IsLimited :
    {most : ℕ} (b : TokenBucket) (calls : List Call)
    → most ≤ 2 ^ 32
    → IsLimited most b
    → AllTimed most b calls
    → IsLimited most (consume_all b calls) × IsPaid b (consume_all b calls) (total_bytes calls)
unfolding consume_all
consume_all-IsLimited b [] small v t = (v, IsPaid-refl b)
consume_all-IsLimited b (c ∷ cs) small v t =
    let (v', p, _) = consume-IsLimited c.now c.woken small t.0 v t.1 in
    let (w, q) = consume_all-IsLimited (consume b c.bytes c.now c.woken).0 cs small v' t.2 in
    (w, IsPaid-trans p q)

-- A new bucket starts full and within every limit.
pub new-IsLimited :
    (most bytes_per_sec now : ℕ)
    → 0 < bytes_per_sec
    → bytes_per_sec ≤ 1000000000
    → IsLimited most (new bytes_per_sec now)
unfolding new
new-IsLimited most r now p h = ground (arith, as_i64_small (max (r / 10) 8192) (omega arith))

mul_mono : (r x y : ℕ) → x ≤ y → r * x ≤ r * y
mul_mono r x y h = grind arith

pos_part-new : (r now : ℕ) → r ≤ 1000000000 → pos_part (new r now).tokens ≡ max (r / 10) 8192
unfolding new
pos_part-new r now h = ground (arith, as_i64_small (max (r / 10) 8192) (omega arith))

new_clock : (r now : ℕ) → ((new r now).last_refill ≡ now) × ((new r now).bytes_per_sec ≡ r)
unfolding new
new_clock r now = (refl, refl)

-- Whatever the calls, with at most `most` bytes each, a bucket that is new at `start` with a rate of
-- 1 to 10 ^ 9 bytes a second lets through no more than the rate's share of the time up to its last
-- refill, beyond a burst of its capacity and the limit on the debt.
pub rate_limit :
    (most bytes_per_sec start : ℕ) (calls : List Call)
    → 0 < bytes_per_sec
    → bytes_per_sec ≤ 1000000000
    → most ≤ 2 ^ 32
    → AllTimed most (new bytes_per_sec start) calls
    → total_bytes calls * 1000000000
      ≤ (max (bytes_per_sec / 10) 8192 + debt_limit most (new bytes_per_sec start)) * 1000000000
        + bytes_per_sec * ((consume_all (new bytes_per_sec start) calls).last_refill - start)
rate_limit most r start calls p h small t =
    let b = new r start in
    let (v, q) = consume_all-IsLimited b calls small (new-IsLimited most r start p h) t in
    let finish = (consume_all b calls).last_refill in
    omega (
      arith,
      q.paid,
      v.debt,
      pos_part-new r start h,
      ap (λ (k : ℕ). k / 1000000) q.same_rate,
      ap (λ (k : ℕ). k * b.last_refill) (new_clock r start).1,
      ap (λ (k : ℕ). k * finish) (new_clock r start).1,
      ap (λ (k : ℕ). r * k) (new_clock r start).0,
      mul_mono r finish (start + (finish - start)) (omega arith),
    )
