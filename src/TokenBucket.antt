-- ===== src/TokenBucket.antt =====
-- src/token_bucket.rs: the rate limiter of the senders. An `Instant` is a number of nanoseconds;
-- each reading of the clock is an argument.
pub mod Refill
pub mod Debt
pub mod Rate
pub mod Unlimited
pub mod Bandwidth
mod Tests
use rperf3_rs.Base.{ℕ, ◌+◌, ◌-◌, ◌*◌, ◌/◌, ◌%◌, ◌^◌, max, Bool, if◌then◌else◌, ltb, mul64, as_u64}
use rperf3_rs.Base.Int.{ℤ, pos, negsuc, ltb_ℤ, min_ℤ, as_i64, bits64, add_i64, sub_i64}

-- `tokens` and `capacity` are i64.
pub record TokenBucket : Type 0 where
  pub bytes_per_sec : ℕ
  pub tokens : ℤ
  pub capacity : ℤ
  pub last_refill : ℕ
  pub nanos_per_byte : ℕ

unfoldable pub new : ℕ → ℕ → TokenBucket
new bytes_per_sec now =
    let capacity = as_i64 (max (bytes_per_sec / 10) 8192) in
    record {
      bytes_per_sec = bytes_per_sec;
      tokens = capacity;
      capacity = capacity;
      last_refill = now;
      nanos_per_byte = if ltb 0 bytes_per_sec then 1000000000 / bytes_per_sec else 0;
    }

-- `now.duration_since(self.last_refill)`, which stops at 0
abbrev pub elapsed : TokenBucket → ℕ → ℕ
elapsed b now = now - b.last_refill

-- `(elapsed_micros * self.bytes_per_sec) / 1_000_000` on u64
abbrev pub tokens_to_add : TokenBucket → ℕ → ℕ
tokens_to_add b now = mul64 (as_u64 (elapsed b now / 1000)) b.bytes_per_sec / 1000000

unfoldable pub refill : TokenBucket → ℕ → TokenBucket
refill b now =
    if ltb 0 (as_u64 (elapsed b now))
    then if ltb 0 (tokens_to_add b now)
      then record b {
        tokens = min_ℤ (add_i64 b.tokens (as_i64 (tokens_to_add b now))) b.capacity;
        last_refill = now;
      }
      else b
    else b

-- `tokens_needed as u64 * self.nanos_per_byte`
abbrev pub sleep_nanos : TokenBucket → ℤ → ℕ
sleep_nanos b bytes = mul64 (bits64 (sub_i64 bytes b.tokens)) b.nanos_per_byte

-- What `consume` does before it takes the tokens: the bucket, and the nanoseconds that it asked to
-- sleep (0 if it does not sleep). `woken` is the clock after the sleep.
unfoldable pub wait : TokenBucket → ℤ → ℕ → TokenBucket × ℕ
wait b bytes woken =
    if ltb_ℤ b.tokens bytes
    then if ltb 0 (sleep_nanos b bytes)
      then if ltb 10000 (sleep_nanos b bytes) then (refill b woken, sleep_nanos b bytes) else (b, 0)
      else (b, 0)
    else (b, 0)

-- `consume(bytes)`: the clock says `now` at the call and `woken` after a sleep
unfoldable pub consume : TokenBucket → ℕ → ℕ → ℕ → TokenBucket × ℕ
consume b bytes now woken =
    let (b', slept) = wait (refill b now) (as_i64 bytes) woken in
    (record b' { tokens = sub_i64 b'.tokens (as_i64 bytes) }, slept)

unfoldable pub reset : TokenBucket → ℕ → TokenBucket
reset b now = record b { tokens = b.capacity; last_refill = now }

unfoldable pub available_tokens : TokenBucket → ℤ
available_tokens b = b.tokens

-- `reset`, called by the last line, reads the clock.
unfoldable pub set_bandwidth : TokenBucket → ℕ → ℕ → TokenBucket
unfolding reset
set_bandwidth b bytes_per_sec now =
    let b' = record b {
      bytes_per_sec = bytes_per_sec;
      capacity = as_i64 (max (bytes_per_sec / 10) 8192);
      nanos_per_byte = if ltb 0 bytes_per_sec then 1000000000 / bytes_per_sec else 0;
    } in
    reset b' now
