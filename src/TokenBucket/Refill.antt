-- ===== src/TokenBucket/Refill.antt =====
-- What a refill adds, where no product or sum leaves its machine integer.
use rperf3_rs.Base.{ℕ, ◌+◌, ◌*◌, ◌/◌, ◌^◌, ◌≤◌, ◌<◌, ◌≡◌, ◌⊎◌, refl, ap, ◌∙◌, ◌%◌, inl, inr, arith}
use rperf3_rs.Base.Int.{
  ℤ, pos, pos_part, neg_part, add_i64, add_i64_parts, min_ℤ, min_ℤ_cases, as_i64, as_i64_small,
  ◌≤ℤ◌, one_part,
}
use rperf3_rs.TokenBucket.{TokenBucket, refill, tokens_to_add, elapsed}

-- 2 ^ 33 microseconds are more than two hours.
abbrev pub max_gap : ℕ
max_gap = 2 ^ 33 * 1000

-- At most 10 ^ 9 bytes a second, tokens no more than the capacity, and room for every sum.
pub record IsSafe (b : TokenBucket) : Type 0 where
  pub rate_le : b.bytes_per_sec ≤ 1000000000
  pub capacity_pos : neg_part b.capacity ≡ 0
  pub capacity_in : pos_part b.capacity < 2 ^ 61
  pub filled : b.tokens ≤ℤ b.capacity
  pub debt_in : neg_part b.tokens ≤ 2 ^ 61

product_in : (x y : ℕ) → x < 2 ^ 33 → y ≤ 1000000000 → x * y < 2 ^ 63
product_in x y h k = grind arith

mul_mono : (x y c : ℕ) → x ≤ y → x * c ≤ y * c
mul_mono x y c h = grind arith

-- Whole microseconds are less than one away from the time.
share_bounds :
    (e r : ℕ) → (1000 * (e / 1000 * r) ≤ e * r) × (e * r ≤ 1000 * (e / 1000 * r) + 1000 * r)
share_bounds e r = (
  omega (arith, mul_mono (1000 * (e / 1000)) e r (omega arith)),
  omega (arith, mul_mono e (1000 * (e / 1000) + 1000) r (omega arith)),
)

module _ {b : TokenBucket} (now : ℕ) (s : IsSafe b) (gap : elapsed b now < max_gap) where
  tokens_to_add-exact : tokens_to_add b now ≡ elapsed b now / 1000 * b.bytes_per_sec / 1000000
  tokens_to_add-exact =
      let e : elapsed b now / 1000 % 2 ^ 64 ≡ elapsed b now / 1000 = omega arith in
      ap (λ t. t * b.bytes_per_sec % 2 ^ 64 / 1000000) e
      ∙ omega (arith, product_in (elapsed b now / 1000) b.bytes_per_sec (omega arith) s.rate_le)

  -- At most the rate's share of the time is added, and less than 1 token and 1 microsecond's share
  -- is lost.
  pub added_bounds :
      (tokens_to_add b now * 1000000000 ≤ elapsed b now * b.bytes_per_sec)
      × (elapsed b now * b.bytes_per_sec
          < tokens_to_add b now * 1000000000 + 1000 * b.bytes_per_sec + 1000000000)
  added_bounds = omega (arith, tokens_to_add-exact, share_bounds (elapsed b now) b.bytes_per_sec)

  pub added_in : tokens_to_add b now < 2 ^ 62
  added_in = omega (
    arith,
    tokens_to_add-exact,
    product_in (elapsed b now / 1000) b.bytes_per_sec (omega arith) s.rate_le,
  )

-- What happens between two states of a bucket in which `n` bytes are taken, in bytes times 10 ^ 9:
-- the tokens that are left and the bytes taken are paid by the tokens that were there and by the
-- rate's share of the time.
pub record IsPaid (b b' : TokenBucket) (n : ℕ) : Type 0 where
  pub paid :
      pos_part b'.tokens * 1000000000
        + neg_part b.tokens * 1000000000
        + b.bytes_per_sec * b.last_refill
        + n * 1000000000
      ≤ neg_part b'.tokens * 1000000000
        + pos_part b.tokens * 1000000000
        + b.bytes_per_sec * b'.last_refill
  pub same_rate : b'.bytes_per_sec ≡ b.bytes_per_sec
  pub same_capacity : b'.capacity ≡ b.capacity
  pub same_nanos : b'.nanos_per_byte ≡ b.nanos_per_byte

pub IsPaid-refl : (b : TokenBucket) → IsPaid b b 0
IsPaid-refl b = record {
  paid = omega arith;
  same_rate = refl;
  same_capacity = refl;
  same_nanos = refl;
}

-- A refill either leaves the bucket, because not one token is due, or adds what is due up to the
-- capacity.
pub refill_cases :
    (b : TokenBucket) (now : ℕ)
    → elapsed b now < max_gap
    → ((refill b now ≡ b) × (tokens_to_add b now ≡ 0))
      ⊎ (refill b now ≡ record b {
        tokens = min_ℤ (add_i64 b.tokens (as_i64 (tokens_to_add b now))) b.capacity;
        last_refill = now;
      })
unfolding refill
refill_cases b now gap = ground arith

-- The capped sum: exact, or the cap and not more than the sum.
module _ (t c : ℤ) (a : ℕ) (h : pos_part t + a < 2 ^ 63) (k : neg_part t ≤ 2 ^ 62) where
  sum_parts :
      pos_part (add_i64 t (as_i64 a)) + neg_part t
      ≡ neg_part (add_i64 t (as_i64 a)) + pos_part t + a
  sum_parts = rw (as_i64_small a (omega arith)) (omega (arith, add_i64_parts t (pos a)))

  pub capped_sum :
      ((min_ℤ (add_i64 t (as_i64 a)) c ≤ℤ c)
        × (pos_part (min_ℤ (add_i64 t (as_i64 a)) c) + neg_part t
            ≤ neg_part (min_ℤ (add_i64 t (as_i64 a)) c) + pos_part t + a))
      × ((min_ℤ (add_i64 t (as_i64 a)) c ≡ c)
          ⊎ (neg_part (min_ℤ (add_i64 t (as_i64 a)) c) + pos_part t + a
              ≤ pos_part (min_ℤ (add_i64 t (as_i64 a)) c) + neg_part t))
  capped_sum = ground (arith, min_ℤ_cases (add_i64 t (as_i64 a)) c, sum_parts)

module _ {b : TokenBucket} (now : ℕ) (s : IsSafe b) (gap : elapsed b now < max_gap) where
  refilled_tokens : ℤ
  refilled_tokens = min_ℤ (add_i64 b.tokens (as_i64 (tokens_to_add b now))) b.capacity

  capped :
      ((refilled_tokens ≤ℤ b.capacity)
        × (pos_part refilled_tokens + neg_part b.tokens
            ≤ neg_part refilled_tokens + pos_part b.tokens + tokens_to_add b now))
      × ((refilled_tokens ≡ b.capacity)
          ⊎ (neg_part refilled_tokens + pos_part b.tokens + tokens_to_add b now
              ≤ pos_part refilled_tokens + neg_part b.tokens))
  unfolding refilled_tokens
  capped =
      capped_sum b.tokens b.capacity (tokens_to_add b now) (omega (arith, added_in now s gap))
        (omega arith)

  -- A refill pays for what it adds.
  pub refill-IsPaid : b.last_refill ≤ now → IsPaid b (refill b now) 0
  unfolding refilled_tokens
  refill-IsPaid later =
      let span : b.last_refill + elapsed b now ≡ now = omega arith in
      elim (refill_cases b now gap) [
        | inl (same, none_due) ↦ rw same (IsPaid-refl b)
        | inr filled ↦ rw filled (record {
          paid = omega (arith, capped, added_bounds now s gap, ap (λ t. t * b.bytes_per_sec) span);
          same_rate = refl;
          same_capacity = refl;
          same_nanos = refl;
        })
      ]

  -- No refill adds to the debt.
  pub neg_part-refill-le : neg_part (refill b now).tokens ≤ neg_part b.tokens
  unfolding refilled_tokens
  neg_part-refill-le = elim (refill_cases b now gap) [
    | inl (same, none_due) ↦ rw same (omega arith)
    | inr filled ↦ rw filled (ground (arith, capped, one_part refilled_tokens))
  ]

  -- The tokens are full, or more than the rate's share less one token and one microsecond's share.
  pub refill-share :
      ((refill b now).tokens ≡ b.capacity)
      ⊎ (pos_part b.tokens * 1000000000
            + neg_part (refill b now).tokens * 1000000000
            + elapsed b now * b.bytes_per_sec
          ≤ neg_part b.tokens * 1000000000
            + pos_part (refill b now).tokens * 1000000000
            + 1000 * b.bytes_per_sec
            + 1000000000)
  unfolding refilled_tokens
  refill-share = elim (refill_cases b now gap) [
    | inl (same, none_due) ↦ rw same (inr (omega (arith, none_due, added_bounds now s gap)))
    | inr filled ↦ rw filled (elim capped.1 [
      | inl full ↦ inl full
      | inr sum ↦ inr (omega (arith, sum, added_bounds now s gap))
    ])
  ]

  pub refill-filled : (refill b now).tokens ≤ℤ b.capacity
  unfolding refilled_tokens
  refill-filled = elim (refill_cases b now gap) [
    | inl (same, none_due) ↦ rw same s.filled
    | inr filled ↦ rw filled capped.0.0
  ]

  pub last_refill-refill :
      ((refill b now).last_refill ≡ b.last_refill) ⊎ ((refill b now).last_refill ≡ now)
  unfolding refill
  last_refill-refill = ground arith

-- A bucket that kept its rate and capacity is safe while its tokens are.
pub IsSafe-of :
    {b b' : TokenBucket}
    → IsSafe b
    → b'.bytes_per_sec ≡ b.bytes_per_sec
    → b'.capacity ≡ b.capacity
    → b'.tokens ≤ℤ b.capacity
    → neg_part b'.tokens ≤ 2 ^ 61
    → IsSafe b'
IsSafe-of s r c f d = ground arith
