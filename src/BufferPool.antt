-- ===== src/BufferPool.antt =====
-- src/buffer_pool.rs: the pool of receive and send buffers. Each method holds the mutex for all that
-- it does to the vector, so calls from several tasks are some sequence of whole calls. The list is
-- the vector from its end: `push` and `pop` work at the head.
pub mod Clean
mod Tests
use rperf3_rs.Base.{
  ℕ, zero, suc, ◌-◌, List, [], ◌∷◌, not, if◌then◌else◌, ltb, ◌==◌, length, replicate,
}

pub record BufferPool : Type 0 where
  pub pool : List (List ℕ)
  pub buffer_size : ℕ
  pub max_pool_size : ℕ

unfoldable pub new : ℕ → ℕ → BufferPool
new buffer_size max_pool_size = record {
  pool = [];
  buffer_size = buffer_size;
  max_pool_size = max_pool_size;
}

-- What `pop` leaves, or a new buffer of zeros.
pop_or : List (List ℕ) → ℕ → List ℕ × List (List ℕ)
pop_or [] size = (replicate size 0, [])
pop_or (b ∷ bs) size = (b, bs)

unfoldable pub get : BufferPool → List ℕ × BufferPool
unfolding pop_or
get p = let (b, rest) = pop_or p.pool p.buffer_size in (b, record p { pool = rest })

unfoldable pub put : BufferPool → List ℕ → BufferPool
put p buffer =
    if not (length buffer == p.buffer_size)
    then p
    else if ltb (length p.pool) p.max_pool_size
    then record p { pool = replicate (length buffer) 0 ∷ p.pool }
    else p

-- `for _ in current_size..max_pool_size`, by the rounds left
push_zeroed : ℕ → ℕ → List (List ℕ) → List (List ℕ)
push_zeroed zero size bs = bs
push_zeroed (suc n) size bs = push_zeroed n size (replicate size 0 ∷ bs)

unfoldable pub preallocate : BufferPool → BufferPool
unfolding push_zeroed
preallocate p = record p {
  pool = push_zeroed (p.max_pool_size - length p.pool) p.buffer_size p.pool;
}

unfoldable pub size : BufferPool → ℕ
size p = length p.pool

unfoldable pub clear : BufferPool → BufferPool
clear p = record p { pool = [] }
