-- ===== src/TokenBucket/Unlimited.antt =====
-- Rates for which the limiter of src/token_bucket.rs is no limiter.
use rperf3_rs.Base.{ℕ, ◌+◌, ◌*◌, ◌/◌, ◌%◌, ◌^◌, ◌<◌, ◌≡◌, refl, ap, ap₂, ◌∙◌, arith, List, [], ◌∷◌}
use rperf3_rs.TokenBucket.{TokenBucket, new, refill, wait, consume, sleep_nanos}
use rperf3_rs.TokenBucket.Rate.{Call}
use rperf3_rs.Base.Int.{ℤ, bits64, sub_i64}

-- The nanoseconds that the calls ask to sleep, together.
unfoldable pub total_sleep : TokenBucket → List Call → ℕ
total_sleep b [] = 0
total_sleep b (c ∷ cs) =
    let (b', slept) = consume b c.bytes c.now c.woken in slept + total_sleep b' cs

nanos-refill : (b : TokenBucket) (now : ℕ) → (refill b now).nanos_per_byte ≡ b.nanos_per_byte
unfolding refill
nanos-refill b now = ground arith

nanos-wait :
    (b : TokenBucket) (bytes : ℤ) (woken : ℕ)
    → (wait b bytes woken).0.nanos_per_byte ≡ b.nanos_per_byte
unfolding wait
nanos-wait b bytes woken = ground (arith, nanos-refill b woken)

wait_free :
    (b : TokenBucket) (bytes : ℤ) (woken : ℕ) → b.nanos_per_byte ≡ 0 → (wait b bytes woken).1 ≡ 0
unfolding wait
wait_free b bytes woken h =
    let e : sleep_nanos b bytes ≡ 0 =
      ap (λ (k : ℕ). bits64 (sub_i64 bytes b.tokens) * k % 2 ^ 64) h ∙ omega arith in
    ground arith

consume_free :
    (b : TokenBucket) (n now woken : ℕ)
    → b.nanos_per_byte ≡ 0
    → ((consume b n now woken).1 ≡ 0) × ((consume b n now woken).0.nanos_per_byte ≡ 0)
unfolding consume
consume_free b n now woken h = (
  wait_free (refill b now) _ woken (nanos-refill b now ∙ h),
  nanos-wait (refill b now) _ woken ∙ nanos-refill b now ∙ h,
)

total_sleep_free :
    (b : TokenBucket) (calls : List Call) → b.nanos_per_byte ≡ 0 → total_sleep b calls ≡ 0
unfolding total_sleep
total_sleep_free b [] h = refl
total_sleep_free b (c ∷ cs) h =
    let (s, k) = consume_free b c.bytes c.now c.woken h in
    ap₂ ◌+◌ s (total_sleep_free (consume b c.bytes c.now c.woken).0 cs k)

price_zero : (r : ℕ) → 1000000000 < r → 1000000000 / r ≡ 0
price_zero r h = grind arith

nanos-new : (r now : ℕ) → 1000000000 < r → (new r now).nanos_per_byte ≡ 0
unfolding new
nanos-new r now h = ground (arith, price_zero r h)

-- Above 10 ^ 9 bytes a second (8 Gbit/s) the price of a byte rounds to 0 nanoseconds: no sequence
-- of calls ever sleeps, however many bytes it sends.
pub total_sleep-new :
    (bytes_per_sec start : ℕ) (calls : List Call)
    → 1000000000 < bytes_per_sec
    → total_sleep (new bytes_per_sec start) calls ≡ 0
total_sleep-new r start calls h = total_sleep_free (new r start) calls (nanos-new r start h)
