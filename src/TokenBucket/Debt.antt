-- ===== src/TokenBucket/Debt.antt =====
-- How far below zero a call of `consume` may leave the tokens.
use rperf3_rs.Base.{
  ℕ, ◌+◌, ◌-◌, ◌*◌, ◌/◌, ◌%◌, ◌^◌, ◌≤◌, ◌<◌, ◌≡◌, ◌⊎◌, ap, ◌∙◌, inl, inr, arith, dec_lt,
}
use rperf3_rs.Base.Int.{
  ℤ, pos, pos_part, neg_part, ◌≤ℤ◌, as_i64, as_i64_small, sub_i64, sub_i64_parts, bits64,
  bits64_pos, one_part,
}
use rperf3_rs.TokenBucket.{TokenBucket, refill, wait, consume, elapsed, sleep_nanos}
use rperf3_rs.TokenBucket.Refill.{IsSafe, max_gap, refill-share}

-- The debt that no call with at most `most` bytes exceeds.
abbrev pub debt_limit : ℕ → TokenBucket → ℕ
debt_limit most b = most + 2 * (b.bytes_per_sec / 1000000) + 10004

pub record IsLimited (most : ℕ) (b : TokenBucket) : Type 0 where
  pub safe : IsSafe b
  pub rate_pos : 0 < b.bytes_per_sec
  pub nanos : b.nanos_per_byte ≡ 1000000000 / b.bytes_per_sec
  pub debt : neg_part b.tokens ≤ debt_limit most b

-- The clock does not go back, the sleep lasts at least as long as asked for, and no two hours pass.
pub record IsTimed (b : TokenBucket) (bytes now woken : ℕ) : Type 0 where
  pub later : b.last_refill ≤ now
  pub slept : now + (consume b bytes now woken).1 ≤ woken
  pub soon : woken < b.last_refill + max_gap

half_rate : (r : ℕ) → 0 < r → r ≤ 1000000000 → 1000000000 ≤ 2 * (1000000000 / r * r)
half_rate r p h = grind arith

mul_mono : (n x y : ℕ) → x ≤ y → n * x ≤ n * y
mul_mono n x y h = grind arith

-- `n` missing bytes, `n * nanos` nanoseconds slept: at least half of them are due.
half_due :
    (n r e : ℕ) → 0 < r → r ≤ 1000000000 → n * (1000000000 / r) ≤ e → n * 1000000000 ≤ 2 * (e * r)
half_due n r e p h l = omega (
  arith,
  mul_mono n 1000000000 (2 * (1000000000 / r * r)) (half_rate r p h),
  mul_mono r (n * (1000000000 / r)) e l,
)

-- One byte costs at least a nanosecond.
byte_cost : (n r : ℕ) → 0 < r → r ≤ 1000000000 → n ≤ n * (1000000000 / r)
byte_cost n r p h = grind arith

sleep_in : (n r : ℕ) → n < 2 ^ 34 → n * (1000000000 / r) < 2 ^ 64
sleep_in n r h = grind arith

-- How `wait` ends: the tokens suffice or the sleep would be too short, or it slept and refilled.
pub wait_cases :
    (b : TokenBucket) (bytes : ℤ) (woken : ℕ)
    → ((wait b bytes woken ≡ (b, 0)) × ((bytes ≤ℤ b.tokens) ⊎ (sleep_nanos b bytes ≤ 10000)))
      ⊎ ((wait b bytes woken ≡ (refill b woken, sleep_nanos b bytes))
          × (pos_part b.tokens + neg_part bytes < pos_part bytes + neg_part b.tokens))
unfolding wait
wait_cases b bytes woken = ground arith

-- The bytes that are missing for a call with `n` bytes at tokens `t`.
abbrev pub missing : ℕ → ℤ → ℕ
missing n t = n + neg_part t - pos_part t

-- The tokens after the bytes are taken.
pub taken_parts :
    (n : ℕ) (t : ℤ)
    → n ≤ 2 ^ 32
    → neg_part t ≤ 2 ^ 34
    → pos_part t < 2 ^ 61
    → (pos_part (sub_i64 t (as_i64 n)) ≡ pos_part t - (n + neg_part t))
      × (neg_part (sub_i64 t (as_i64 n)) ≡ missing n t)
taken_parts n t a d u =
    rw (as_i64_small n (omega arith))
      (ground (arith, sub_i64_parts t (pos n), one_part (sub_i64 t (pos n)), one_part t))

module _ (n : ℕ) (b : TokenBucket) (a : n ≤ 2 ^ 32) (d : neg_part b.tokens ≤ 2 ^ 33 + 2 ^ 20)
    (u : pos_part b.tokens < 2 ^ 61) (m : 0 < missing n b.tokens) where
  missing_parts :
      (pos_part (sub_i64 (pos n) b.tokens) ≡ missing n b.tokens)
      × (neg_part (sub_i64 (pos n) b.tokens) ≡ 0)
  missing_parts = ground (
    arith,
    sub_i64_parts (pos n) b.tokens,
    one_part (sub_i64 (pos n) b.tokens),
    one_part b.tokens,
  )

  missing_bits : bits64 (sub_i64 (as_i64 n) b.tokens) ≡ missing n b.tokens
  missing_bits = rw (as_i64_small n (omega arith)) (
      bits64_pos (sub_i64 (pos n) b.tokens) (omega (arith, missing_parts)) (missing_parts.1)
      ∙ missing_parts.0)

  sleep_nanos-exact :
      b.nanos_per_byte ≡ 1000000000 / b.bytes_per_sec
      → sleep_nanos b (as_i64 n) ≡ missing n b.tokens * (1000000000 / b.bytes_per_sec)
  sleep_nanos-exact e =
      ap (λ k. k * b.nanos_per_byte % 2 ^ 64) missing_bits
      ∙ ap (λ k. missing n b.tokens * k % 2 ^ 64) e
      ∙ omega (arith, sleep_in (missing n b.tokens) b.bytes_per_sec (omega arith))

-- A bucket after `wait`, before the bytes are taken: what is missing then is within the limit.
module _ {most n : ℕ} {b : TokenBucket} (woken : ℕ) (small : most ≤ 2 ^ 32) (fits : n ≤ most)
    (v : IsLimited most b) (soon : woken < b.last_refill + max_gap) where
  missing_after_sleep :
      0 < missing n b.tokens
      → b.last_refill + sleep_nanos b (as_i64 n) ≤ woken
      → missing n (refill b woken).tokens ≤ debt_limit most b
  missing_after_sleep m l =
      let e =
        sleep_nanos-exact n b (omega (arith, v.safe, v.debt, v.safe.rate_le))
          (omega (arith, v.debt, v.safe.rate_le)) (omega (arith, v.safe)) m v.nanos in
      let due =
        half_due (missing n b.tokens) b.bytes_per_sec (elapsed b woken) v.rate_pos v.safe.rate_le
          (omega (arith, e)) in
      elim (refill-share woken v.safe (omega arith)) [
        | inl full ↦ rw full (omega (arith, v.safe.capacity_pos))
        | inr share ↦ omega (arith, share, due, v.debt, v.safe.rate_le)
      ]

  -- What is missing when the bytes are taken is within the limit, whichever way `wait` ends.
  pub missing_after_wait :
      b.last_refill + (wait b (as_i64 n) woken).1 ≤ woken
      → missing n (wait b (as_i64 n) woken).0.tokens ≤ debt_limit most b
  missing_after_wait awake = elim (wait_cases b (as_i64 n) woken) [
    | inl (stay, enough) ↦
        rw stay (elim enough [ inl covered ↦ at_hand covered | inr short ↦ short_debt short ])
    | inr (sleep, less) ↦ rw sleep (missing_after_sleep (less_missing less) (rw sleep at awake))
  ]
    where
      at_hand : as_i64 n ≤ℤ b.tokens → missing n b.tokens ≤ debt_limit most b
      at_hand h = let h' : pos n ≤ℤ b.tokens = rw (as_i64_small n (omega arith)) at h in omega arith

      less_missing :
          pos_part b.tokens + neg_part (as_i64 n) < pos_part (as_i64 n) + neg_part b.tokens
          → 0 < missing n b.tokens
      less_missing h =
          let h' : pos_part b.tokens + 0 < n + neg_part b.tokens =
            rw (as_i64_small n (omega arith)) at h in
          omega arith

      short_debt : sleep_nanos b (as_i64 n) ≤ 10000 → missing n b.tokens ≤ debt_limit most b
      short_debt h = elim (dec_lt 0 (missing n b.tokens)) [
        | no none_missing ↦ omega arith
        | yes m ↦ omega (
          arith,
          byte_cost (missing n b.tokens) b.bytes_per_sec v.rate_pos v.safe.rate_le,
          sleep_nanos-exact n b (omega (arith, v.safe, v.debt, v.safe.rate_le))
              (omega (arith, v.debt, v.safe.rate_le)) (omega (arith, v.safe)) m v.nanos,
        )
      ]
