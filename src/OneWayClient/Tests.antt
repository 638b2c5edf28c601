-- ===== src/OneWayClient/Tests.antt =====
-- Runs of the one-way loops of the client, and their theorems at concrete inputs.
use rperf3_rs.Base.{
  ℕ, ◌%◌, ◌^◌, ◌≡◌, refl, sym, List, [], ◌∷◌, ◌++◌, none, some, true, arith, length,
}
use rperf3_rs.Base.Float.{whole_float}
use rperf3_rs.OneWay
use rperf3_rs.OneWay.{receiver_new, receive_loop, finished, datagram, timed_out}
use rperf3_rs.UdpPacket.{parse_packet, from_bytes, read_fields}
use rperf3_rs.Traffic.{run_loop, state_of}
use rperf3_rs.OneWayClient.{
  SendRound, RecvRound, send_one_way, send_one_way_step, sender_new, stamp, on_send,
  recv_one_way_step, one_way_receiver_new,
}
use rperf3_rs.OneWayClient.Delivery.{receive_loop-send_one_way}
use rperf3_rs.OneWayClient.Magic.{recv_one_way-out_of_order}

abbrev buffer : List ℕ
buffer = 0 ∷ 0 ∷ 0 ∷ 0 ∷ 0 ∷ 0 ∷ 0 ∷ 0 ∷ 9 ∷ []

abbrev packet : ℕ → List ℕ
packet n = 0 ∷ 0 ∷ 0 ∷ n ∷ 0 ∷ 0 ∷ 0 ∷ 0 ∷ 9 ∷ []

abbrev send_at : ℕ → SendRound
send_at now = record { now = now; outcome = some 9; checked_at = now; woken_at = now }

abbrev sends : List SendRound
sends = send_at 110 ∷ send_at 120 ∷ send_at 1100 ∷ []

-- A buffer without room for the number and the stream is a panic.
panic_runs : send_one_way 100 1000 (0 ∷ []) none sends ≡ none
unfolding send_one_way
panic_runs = refl

sends_runs :
    (state_of (run_loop (send_one_way_step 100 1000) (sender_new buffer none) sends)).sent
    ≡ packet 0 ∷ packet 1 ∷ []
unfolding run_loop send_one_way_step sender_new stamp on_send
sends_runs = refl

abbrev rounds : List OneWay.Round
rounds =
    record { now = 200; outcome = datagram (packet 0); current = 201 }
    ∷ record { now = 202; outcome = timed_out; current = 203 }
    ∷ record { now = 204; outcome = datagram (packet 1); current = 205 }
    ∷ []

abbrev last : OneWay.Round
last = record { now = 1300; outcome = timed_out; current = 1300 }

receive_loop-send_one_way_example :
    let s = state_of (run_loop (send_one_way_step 100 1000) (sender_new buffer none) sends) in
    (send_one_way 100 1000 buffer none sends
      ≡ some (run_loop (send_one_way_step 100 1000) (sender_new buffer none) sends))
    × (r : OneWay.Receiver) × (receive_loop 1200 (receiver_new 190) (rounds ++ (last ∷ []))
        ≡ finished r)
    × (r.packets_received ≡ length s.sent % 2 ^ 64)
    × (r.packets_lost ≡ 0)
    × (r.out_of_order ≡ 0)
receive_loop-send_one_way_example =
    receive_loop-send_one_way 100 1000 buffer none sends 190 1200 rounds last [] (omega arith)
      (sym sends_runs) (omega arith) (tt, (tt, (tt, tt))) (omega arith)

abbrev test_packet : ℕ → List ℕ
test_packet n =
    0x52 ∷ 0x50 ∷ 0x46 ∷ 0x33 ∷ 0 ∷ 0 ∷ 0 ∷ 0 ∷ 0 ∷ 0 ∷ 0 ∷ n ∷ 0 ∷ 0 ∷ 0 ∷ 0 ∷ 0 ∷ 0 ∷ 0 ∷ 7 ∷ 0
    ∷ []

-- Packet 5, and then packet 3.
abbrev reordered : List RecvRound
reordered =
    record { now = 110; datagram = some (test_packet 5); arrived_at = 111 }
    ∷ record { now = 120; datagram = some (test_packet 3); arrived_at = 121 }
    ∷ []

recv_one_way-out_of_order_example :
    let step = recv_one_way_step whole_float 100 1000 in
    (state_of (run_loop step (true, one_way_receiver_new) reordered)).1.out_of_order ≡ 0
unfolding parse_packet from_bytes read_fields
recv_one_way-out_of_order_example =
    recv_one_way-out_of_order whole_float 100 1000 reordered ((_, refl), ((_, refl), tt))
