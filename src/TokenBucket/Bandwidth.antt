-- ===== src/TokenBucket/Bandwidth.antt =====
-- A change of bandwidth in src/token_bucket.rs, against a new bucket.
use rperf3_rs.Base.{ℕ, ◌≡◌, refl}
use rperf3_rs.TokenBucket.{TokenBucket, new, set_bandwidth}

-- A change of bandwidth forgets all that the bucket was: it leaves a new bucket of the new rate.
pub set_bandwidth-eq-new :
    (b : TokenBucket) (bytes_per_sec now : ℕ)
    → set_bandwidth b bytes_per_sec now ≡ new bytes_per_sec now
unfolding set_bandwidth new
set_bandwidth-eq-new b r now = refl
