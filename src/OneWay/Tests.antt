-- ===== src/OneWay/Tests.antt =====
-- Runs of the one-way receiver, and its theorems at concrete inputs.
use rperf3_rs.Base.{ℕ, ◌+◌, ◌%◌, ◌^◌, ◌≡◌, refl, List, [], ◌∷◌, ◌++◌, some, arith}
use rperf3_rs.OneWay.{
  receiver_new, Round, datagram, timed_out, receive_loop, finished, read_header, receive_datagram,
  count_datagram, track_header, track, observe,
}
use rperf3_rs.OneWay.Count.{
  Arrival, receive_all, expected_sum, firsts, packets_of, receive_all-receiver_new,
}
use rperf3_rs.OneWay.Loop.{after_rounds, receive_loop-finished}

-- Packet `seq` of stream 5.
abbrev packet : ℕ → List ℕ
packet seq = 0 ∷ 0 ∷ 0 ∷ seq ∷ 0 ∷ 0 ∷ 0 ∷ 5 ∷ 77 ∷ []

header_runs : read_header (packet 3) ≡ some (3, 5)
unfolding read_header
header_runs = refl

header_runs_later : read_header (packet 7) ≡ some (7, 5)
unfolding read_header
header_runs_later = refl

abbrev arrivals : List Arrival
arrivals =
    record { packet = (3, 5); bytes = packet 3; header = header_runs; in_range = omega arith }
    ∷ record {
      packet = (7, 5);
      bytes = packet 7;
      header = header_runs_later;
      in_range = omega arith;
    }
    ∷ []

-- From 3 to 7, three are lost.
lost_runs : (receive_all (receiver_new 0) arrivals).packets_lost ≡ 3
unfolding receive_all receiver_new receive_datagram count_datagram track_header track observe
    read_header
lost_runs = refl

receive_all-receiver_new_example :
    (expected_sum (receive_all (receiver_new 0) arrivals).stream_states
        + (receive_all (receiver_new 0) arrivals).out_of_order)
      % 2 ^ 64
    ≡ (firsts [] (packets_of arrivals)
        + (receive_all (receiver_new 0) arrivals).packets_lost
        + (receive_all (receiver_new 0) arrivals).packets_received)
      % 2 ^ 64
receive_all-receiver_new_example = receive_all-receiver_new 0 arrivals

abbrev rounds : List Round
rounds =
    record { now = 0; outcome = datagram (packet 3); current = 10 }
    ∷ record { now = 10; outcome = timed_out; current = 1000000010 }
    ∷ []

abbrev last : Round
last = record { now = 2000000000; outcome = timed_out; current = 2000000001 }

receive_loop-finished_example :
    receive_loop 2000000000 (receiver_new 0) (rounds ++ (last ∷ []))
    ≡ finished (after_rounds (receiver_new 0) rounds)
receive_loop-finished_example =
    receive_loop-finished 2000000000 (receiver_new 0) rounds last [] (omega arith) (tt, (tt, tt))
      (omega arith)
