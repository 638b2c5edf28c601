-- ===== src/BufferPool/Clean.antt =====
-- Every buffer that the pool of src/buffer_pool.rs hands out is zeroed and of the right size.
use rperf3_rs.Base.{
  ℕ, zero, suc, ◌+◌, ◌-◌, ◌≤◌, ◌<◌, ◌≡◌, ◌⊎◌, inl, inr, refl, ap, subst, List, [], ◌∷◌, arith,
  length, replicate, All,
}
use rperf3_rs.BufferPool.{BufferPool, new, pop_or, get, put, preallocate, size, clear, push_zeroed}

abbrev pub IsZeroed : ℕ → List ℕ → Type 0
IsZeroed n b = b ≡ replicate n 0

-- The pool holds zeroed buffers of its size, and no more than it may.
pub record IsClean (p : BufferPool) : Type 0 where
  pub zeroed : All (IsZeroed p.buffer_size) p.pool
  pub bounded : length p.pool ≤ p.max_pool_size

pub new-IsClean : (n m : ℕ) → IsClean (new n m)
unfolding new
new-IsClean n m = record { zeroed = tt; bounded = omega arith }

pub get-IsClean :
    {p : BufferPool} → IsClean p → IsClean (get p).1 × IsZeroed p.buffer_size (get p).0
unfolding get
get-IsClean {p} c = go p.pool c.zeroed c.bounded
  where
    go :
        (bs : List (List ℕ))
        → All (IsZeroed p.buffer_size) bs
        → length bs ≤ p.max_pool_size
        → let (b, rest) = pop_or bs p.buffer_size in
          IsClean (record p { pool = rest }) × IsZeroed p.buffer_size b
    go [] z l = (record { zeroed = tt; bounded = omega arith }, refl)
    go (b ∷ bs) z l = (record { zeroed = z.1; bounded = omega arith }, z.0)

-- `put` drops the buffer, or keeps it zeroed where its size is right and there is room.
put_cases :
    (p : BufferPool) (b : List ℕ)
    → (put p b ≡ p)
      ⊎ ((put p b ≡ record p { pool = replicate (length b) 0 ∷ p.pool })
          × (length b ≡ p.buffer_size)
          × (length p.pool < p.max_pool_size))
unfolding put
put_cases p b = ground arith

pub put-IsClean : {p : BufferPool} (b : List ℕ) → IsClean p → IsClean (put p b)
put-IsClean {p} b c = elim (put_cases p b) [
  | inl dropped ↦ rw dropped c
  | inr (kept, e, l) ↦
      rw kept (record { zeroed = (ap (λ n. replicate n 0) e, c.zeroed); bounded = omega arith })
]

push_zeroed-lem :
    (n size : ℕ) (bs : List (List ℕ))
    → All (IsZeroed size) bs
    → All (IsZeroed size) (push_zeroed n size bs) × (length (push_zeroed n size bs) ≡ n + length bs)
unfolding push_zeroed
push_zeroed-lem zero size bs z = (z, omega arith)
push_zeroed-lem (suc n) size bs z =
    let (a, l) = push_zeroed-lem n size (replicate size 0 ∷ bs) (refl, z) in (a, omega (arith, l))

-- Preallocation fills the pool.
preallocate-IsClean :
    {p : BufferPool}
    → IsClean p
    → IsClean (preallocate p) × (size (preallocate p) ≡ p.max_pool_size)
unfolding preallocate size
preallocate-IsClean {p} c =
    let (a, l) = push_zeroed-lem (p.max_pool_size - length p.pool) p.buffer_size p.pool c.zeroed in
    (record { zeroed = a; bounded = omega (arith, l, c.bounded) }, omega (arith, l, c.bounded))

-- The calls that any number of tasks make, in the order in which they take the mutex.
pub data Op : Type 0 where
  get_op preallocate_op clear_op : Op
  put_op : List ℕ → Op

-- The buffers that the calls hand out, and the pool that they leave.
unfoldable pub run : BufferPool → List Op → List (List ℕ) × BufferPool
run p [] = ([], p)
run p (get_op ∷ ops) = let (b, p') = get p in let (out, q) = run p' ops in (b ∷ out, q)
run p (put_op b ∷ ops) = run (put p b) ops
run p (preallocate_op ∷ ops) = run (preallocate p) ops
run p (clear_op ∷ ops) = run (clear p) ops

pub clear-IsClean : {p : BufferPool} → IsClean p → IsClean (clear p)
unfolding clear
clear-IsClean c = record { zeroed = tt; bounded = omega arith }

buffer_size-get : (p : BufferPool) → (get p).1.buffer_size ≡ p.buffer_size
unfolding get
buffer_size-get p = refl

buffer_size-put : (p : BufferPool) (b : List ℕ) → (put p b).buffer_size ≡ p.buffer_size
unfolding put
buffer_size-put p b = ground arith

buffer_size-preallocate : (p : BufferPool) → (preallocate p).buffer_size ≡ p.buffer_size
unfolding preallocate
buffer_size-preallocate p = refl

buffer_size-clear : (p : BufferPool) → (clear p).buffer_size ≡ p.buffer_size
unfolding clear
buffer_size-clear p = refl

-- Whatever buffers are returned, dirty or of another size, and in whatever order the calls come, a
-- clean pool hands out only zeroed buffers of its size, and stays clean.
pub run-IsClean :
    (p : BufferPool) (ops : List Op)
    → IsClean p
    → All (IsZeroed p.buffer_size) (run p ops).0 × IsClean (run p ops).1
unfolding run
run-IsClean p [] c = (tt, c)
run-IsClean p (get_op ∷ ops) c =
    let (c', z) = get-IsClean c in
    let (a, k) = run-IsClean (get p).1 ops c' in
    ((z, subst (λ k. All (IsZeroed k) (run (get p).1 ops).0) (buffer_size-get p) a), k)
run-IsClean p (put_op b ∷ ops) c =
    let (a, k) = run-IsClean (put p b) ops (put-IsClean b c) in
    (subst (λ k. All (IsZeroed k) (run (put p b) ops).0) (buffer_size-put p b) a, k)
run-IsClean p (preallocate_op ∷ ops) c =
    let (a, k) = run-IsClean (preallocate p) ops (preallocate-IsClean c).0 in
    (subst (λ k. All (IsZeroed k) (run (preallocate p) ops).0) (buffer_size-preallocate p) a, k)
run-IsClean p (clear_op ∷ ops) c =
    let (a, k) = run-IsClean (clear p) ops (clear-IsClean c) in
    (subst (λ k. All (IsZeroed k) (run (clear p) ops).0) (buffer_size-clear p) a, k)
