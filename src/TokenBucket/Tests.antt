-- ===== src/TokenBucket/Tests.antt =====
-- Runs of the limiter, and its theorems at concrete inputs.
use rperf3_rs.Base.{◌+◌, ◌-◌, ◌*◌, ◌/◌, ◌≤◌, ◌≡◌, refl, arith, List, [], ◌∷◌, max}
use rperf3_rs.Base.Int.{pos, as_i64, bits64, sub_i64, add_i64, min_ℤ, ◌-ℤ◌, ◌+ℤ◌}
use rperf3_rs.TokenBucket.{new, wait, refill, consume, set_bandwidth, reset, available_tokens}
use rperf3_rs.TokenBucket.Bandwidth.{set_bandwidth-eq-new}
use rperf3_rs.TokenBucket.Debt.{debt_limit}
use rperf3_rs.TokenBucket.Rate.{Call, consume_all, rate_limit}
use rperf3_rs.TokenBucket.Unlimited.{total_sleep, total_sleep-new}

-- 1 MB/s: a burst of 100 kB, then 1 ms for a kilobyte.
abbrev calls : List Call
calls =
    (record { bytes = 100000; now = 5000; woken = 5000 })
    ∷ (record { bytes = 1000; now = 6000; woken = 1006000 })
    ∷ []

burst_then_sleep :
    ((consume (new 1000000 5000) 100000 5000 5000).0.tokens ≡ pos 0)
    × ((consume (new 1000000 5000) 100000 5000 5000).1 ≡ 0)
    × ((consume (consume (new 1000000 5000) 100000 5000 5000).0 1000 6000 1006000).1 ≡ 999000)
unfolding consume new wait refill as_i64 bits64 sub_i64 add_i64 min_ℤ ◌-ℤ◌ ◌+ℤ◌
burst_then_sleep = (refl, refl, refl)

reset_refills :
    available_tokens (reset (consume (new 1000000 5000) 70000 5000 5000).0 9000) ≡ pos 100000
unfolding consume new wait refill as_i64 bits64 sub_i64 add_i64 min_ℤ ◌-ℤ◌ ◌+ℤ◌ reset
    available_tokens
reset_refills = refl

rate_limit_example :
    101000 * 1000000000
    ≤ (max (1000000 / 10) 8192 + debt_limit 100000 (new 1000000 5000)) * 1000000000
      + 1000000 * ((consume_all (new 1000000 5000) calls).last_refill - 5000)
unfolding consume new wait refill as_i64 bits64 sub_i64 add_i64 min_ℤ ◌-ℤ◌ ◌+ℤ◌
rate_limit_example =
    rate_limit 100000 1000000 5000 calls (omega arith) (omega arith) (omega arith) (omega arith)

total_sleep-new_example : total_sleep (new 2000000000 0) calls ≡ 0
total_sleep-new_example = total_sleep-new 2000000000 0 calls (omega arith)

set_bandwidth-eq-new_example : set_bandwidth (new 5000 7) 125000 9 ≡ new 125000 9
set_bandwidth-eq-new_example = set_bandwidth-eq-new (new 5000 7) 125000 9
