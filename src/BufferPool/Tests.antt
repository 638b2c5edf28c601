-- ===== src/BufferPool/Tests.antt =====
-- Runs of the buffer pool, and its theorem at a concrete input.
use rperf3_rs.Base.{◌≡◌, refl, List, [], ◌∷◌, All}
use rperf3_rs.BufferPool.{new, get, put, size, preallocate}
use rperf3_rs.BufferPool.Clean.{
  IsZeroed, IsClean, new-IsClean, Op, get_op, put_op, preallocate_op, clear_op, run, run-IsClean,
}

put_then_get : (get (put (new 3 2) (9 ∷ 8 ∷ 7 ∷ []))).0 ≡ 0 ∷ 0 ∷ 0 ∷ []
unfolding new put get
put_then_get = refl

full_pool_drops : size (put (preallocate (new 3 2)) (9 ∷ 8 ∷ 7 ∷ [])) ≡ 2
unfolding new put preallocate size
full_pool_drops = refl

abbrev script : List Op
script =
    put_op (1 ∷ 2 ∷ 3 ∷ []) ∷ put_op (1 ∷ []) ∷ get_op ∷ get_op ∷ preallocate_op ∷ clear_op ∷ []

run-IsClean_example :
    All (IsZeroed (new 3 2).buffer_size) (run (new 3 2) script).0 × IsClean (run (new 3 2) script).1
run-IsClean_example = run-IsClean (new 3 2) script (new-IsClean 3 2)
