-- ===== src/OneWay/Loop.antt =====
-- The loop of the one-way receiver of src/server.rs: it ends with the datagrams of the test's time.
use rperf3_rs.Base.{ℕ, ◌<◌, ◌≤◌, ◌≡◌, ◌∙◌, ◌++◌, List, [], ◌∷◌, false, leb, arith, All, le→leb}
use rperf3_rs.OneWay.{
  Receiver, Round, Outcome, datagram, io_error, timed_out, tick, receive_datagram, receive_loop,
  finished,
}

-- A round before the end of the test.
abbrev pub IsBefore : ℕ → Round → Type 0
IsBefore test_end x = x.now < test_end

-- What a round before the end does to the receiver, unless it fails.
abbrev pub after_round : Receiver → Round → Receiver
after_round r x = elim x.outcome [
  | datagram bytes ↦ receive_datagram (tick r x.current) bytes
  | io_error ↦ tick r x.current
  | timed_out ↦ tick r x.current
]

abbrev pub after_rounds : Receiver → List Round → Receiver
after_rounds r [] = r
after_rounds r (x ∷ xs) = after_rounds (after_round r x) xs

abbrev pub IsFine : Round → Type 0
IsFine x = elim x.outcome [ datagram bytes ↦ Unit | io_error ↦ ⊥ | timed_out ↦ Unit ]

loop_step :
    (test_end : ℕ) (r : Receiver) (x : Round) (xs : List Round)
    → IsBefore test_end x
    → IsFine x
    → receive_loop test_end r (x ∷ xs) ≡ receive_loop test_end (after_round r x) xs
unfolding receive_loop
loop_step test_end r x xs h v = go x.now x.outcome x.current h v
  where
    go :
        (n : ℕ) (o : Outcome) (c : ℕ)
        → let x : Round = record { now = n; outcome = o; current = c } in
          n < test_end
          → IsFine x
          → receive_loop test_end r (x ∷ xs) ≡ receive_loop test_end (after_round r x) xs
    go n (datagram bytes) c h v = let t : leb test_end n ≡ false = ground arith in rw t
    go n io_error c h v = elim v [ ]
    go n timed_out c h v = let t : leb test_end n ≡ false = ground arith in rw t

-- A test whose socket does not fail ends in the first round whose clock has reached its end, with
-- all that came before, whatever comes later.
pub receive_loop-finished :
    (test_end : ℕ) (r : Receiver) (xs : List Round) (last : Round) (later : List Round)
    → All (IsBefore test_end) xs
    → All IsFine xs
    → test_end ≤ last.now
    → receive_loop test_end r (xs ++ (last ∷ later)) ≡ finished (after_rounds r xs)
unfolding receive_loop
receive_loop-finished test_end r [] last later b f h = let t = le→leb test_end last.now h in rw t
receive_loop-finished test_end r (x ∷ xs) last later b f h =
    loop_step test_end r x (xs ++ (last ∷ later)) (b.0) (f.0)
    ∙ receive_loop-finished test_end (after_round r x) xs last later b.1 f.1 h
