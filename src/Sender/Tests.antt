-- ===== src/Sender/Tests.antt =====
-- Runs of the batched sender, and its theorem at a concrete input.
use rperf3_rs.Base.{ℕ, ◌≡◌, refl, List, [], ◌∷◌, some, arith, length}
use rperf3_rs.UdpPacket.{Readings}
use rperf3_rs.TokenBucket
use rperf3_rs.Batch.Send.{
  Sendmmsg, took, would_block, add, is_full, send_batch_len, send_batch_is_empty, drain, drain_sent,
  send_mmsg, send_mmsg_sync,
}
use rperf3_rs.Sender.{
  UdpSender, Pass, Plan, payload_size_of, adaptive_batch_size, fill_batch, fill_one, may_fill,
  send_round,
}
use rperf3_rs.Sender.Sequence.{IsInSequence, send_rounds, send_rounds-IsInSequence}

payload_runs : (payload_size_of 1500 ≡ 1480) × (payload_size_of 20 ≡ 1024)
unfolding payload_size_of
payload_runs = (refl, refl)

-- 8 Mbit/s in packets of 1480 bytes are fewer than 1000 a second.
adaptive_runs : adaptive_batch_size (some (TokenBucket.new 1000000 0)) 1480 ≡ 16
unfolding adaptive_batch_size TokenBucket.new
adaptive_runs = refl

abbrev plan : Plan ℕ
plan = record { batch_size = 2; payload_size = 1; duration = 1000; remote_addr = 5201 }

abbrev clocks : Readings
clocks = record { elapsed_at = 10; wall_us = 5; updated_at = 20 }

abbrev pass : Pass
pass = record { since_start = 1; readings = clocks }

abbrev fresh : UdpSender ℕ
fresh = record {
  batch = record { packets = []; addresses = [] };
  cache = record { cached_timestamp_us = 0; last_update = 0; update_interval_us = 1000 };
  sequence = 0;
}

abbrev rounds : List (List Pass × Sendmmsg)
rounds = (pass ∷ pass ∷ pass ∷ [], took (21 ∷ [])) ∷ (pass ∷ pass ∷ [], would_block) ∷ []

-- Two packets, one of which leaves, and one more.
sequence_runs :
    ((send_rounds plan fresh rounds).sequence ≡ 3)
    × (length ((send_rounds plan fresh rounds).batch.packets) ≡ 2)
unfolding send_rounds send_round fill_batch fill_one may_fill add is_full send_batch_len
    send_batch_is_empty drain drain_sent send_mmsg send_mmsg_sync
sequence_runs = (refl, refl)

send_rounds-IsInSequence_example : IsInSequence 1 (send_rounds plan fresh rounds)
send_rounds-IsInSequence_example =
    send_rounds-IsInSequence plan fresh rounds (omega arith)
      (record { counted = omega arith; numbered = tt })
