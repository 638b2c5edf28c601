-- ===== src/Batch/Tests.antt =====
-- Runs of the batches, and their theorems at concrete inputs.
use rperf3_rs.Base.{ℕ, ◌≡◌, refl, List, [], ◌∷◌, some, arith, replicate}
use rperf3_rs.Batch.Send.{took}
use rperf3_rs.Batch.Send
use rperf3_rs.Batch.Send.Order.{
  BatchOp, add_op, send_op, History, IsFifo, perform_all, perform_all-IsFifo,
}
use rperf3_rs.Batch.Recv.{
  v4, Storage, inet, UdpRecvBatch, Datagram, datagram, would_block, recv_portable, try_recv_each,
  sockaddr_to_socketaddr, storage_of,
}
use rperf3_rs.Batch.Recv.Buffers.{sockaddr_to_socketaddr-storage_of}
use rperf3_rs.Batch.Recv.Portable.{IsCapped, recv_all, recv_portable-IsCapped}

abbrev script : List (BatchOp ℕ)
script =
    add_op (1 ∷ []) 5201
    ∷ add_op (2 ∷ []) 5201
    ∷ send_op (took (1 ∷ []))
    ∷ send_op Send.would_block
    ∷ add_op (3 ∷ []) 5201
    ∷ []

abbrev fresh : History ℕ
fresh = record { accepted = []; left = []; batch = record { packets = []; addresses = [] } }

perform_all-IsFifo_example : IsFifo (perform_all fresh script)
perform_all-IsFifo_example =
    perform_all-IsFifo fresh script
      (record { in_order = refl; is_batch = record { paired = refl; bounded = omega arith } })

sockaddr_to_socketaddr-storage_of_example :
    sockaddr_to_socketaddr (storage_of (v4 192 168 1 5 5201)) ≡ some (v4 5 1 168 192 5201)
sockaddr_to_socketaddr-storage_of_example =
    sockaddr_to_socketaddr-storage_of 192 168 1 5 5201 (omega arith) (omega arith) (omega arith)
      (omega arith) (omega arith)

abbrev small : UdpRecvBatch
small = record {
  packets = replicate 4 0 ∷ replicate 4 0 ∷ [];
  addresses = v4 0 0 0 0 0 ∷ v4 0 0 0 0 0 ∷ [];
  count = 0;
}

abbrev short_one : Datagram
short_one = datagram (9 ∷ []) (v4 10 0 0 1 5201)

abbrev long_one : Datagram
long_one = datagram (1 ∷ 2 ∷ 3 ∷ []) (v4 10 0 0 1 5201)

-- The second datagram is cut to the length of the first.
cut_runs :
    (recv_portable
      (recv_portable small (short_one ∷ []) short_one).1
      (long_one ∷ [])
      long_one).1.packets
    ≡ (1 ∷ []) ∷ replicate 4 0 ∷ []
unfolding recv_portable try_recv_each
cut_runs = refl

abbrev later : List (List Datagram × Datagram)
later = (long_one ∷ [], long_one) ∷ ([], long_one) ∷ []

recv_portable-IsCapped_example :
    let (r, c) = recv_portable small (short_one ∷ would_block ∷ []) long_one in
    (r ≡ some 1)
    × (c.packets ≡ (9 ∷ []) ∷ replicate 4 0 ∷ [])
    × IsCapped ((9 ∷ [], v4 10 0 0 1 5201) ∷ []) (recv_all c later).packets
recv_portable-IsCapped_example =
    recv_portable-IsCapped small refl ((9 ∷ [], v4 10 0 0 1 5201) ∷ [])
      (1 ∷ 2 ∷ 3 ∷ [], v4 10 0 0 1 5201) [] later (omega arith)

abbrev message : List ℕ × Storage
message = (1 ∷ 2 ∷ 3 ∷ [], inet 16777343 20753)
