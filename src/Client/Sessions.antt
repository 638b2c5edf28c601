-- ===== src/Client/Sessions.antt =====
-- The sessions of src/client.rs: `run`, `run_tcp` and `run_udp` on Linux.
use rperf3_rs.Base.{Option, none, some, [], ◌∷◌, Bool, true, if◌then◌else◌, leb, replicate}
use rperf3_rs.Base.Float.{Float}
use rperf3_rs.Error.{config_error, Result, ok, err}
use rperf3_rs.Config.{tcp, udp, send, receive, two_way}
use rperf3_rs.Sender
use rperf3_rs.Sender.{payload_size_of, adaptive_batch_size}
use rperf3_rs.Traffic.{Transfer, Stage, running, ended, run_loop}
use rperf3_rs.Traffic.UdpReceive.{run_udp_receive}
use rperf3_rs.Traffic.UdpBatched.{run_udp_send_batched}
use rperf3_rs.OneWayClient.{
  OneWaySender, OneWayReceiver, send_one_way, one_way_receiver_new, recv_one_way_step,
}
use rperf3_rs.Client.{
  test_started, Client, Inputs, Run, ongoing, panicked, returned, check_ack, check_start, notify,
  client_plan, fail, bucket_of, udp_completed, complete, tcp_test,
}

-- An error before the test is started
unfoldable pub refused : {F : Type 0} → Client F → Result Unit → Run F
refused client r =
    returned (record { events = notify client []; collector = client.measurements; result = r })

-- A one-way test that ended well: it has no last event.
unfoldable pub end_one_way : {F : Type 0} → Client F → Run F
end_one_way client = returned (record {
  events = notify client (test_started ∷ []);
  collector = client.measurements;
  result = ok tt;
})

-- What `send_one_way` gives: the panic on a short buffer, and the error that ended its loop
unfoldable pub end_one_way_send : {F : Type 0} → Client F → Option (Stage OneWaySender) → Run F
end_one_way_send client none = panicked
end_one_way_send client (some (running s)) = ongoing
end_one_way_send client (some (ended s)) =
    if s.is_failed then fail client (test_started ∷ []) "send_to" else end_one_way client

unfoldable pub end_one_way_recv : {F : Type 0} → Client F → Stage (Bool × OneWayReceiver F) → Run F
end_one_way_recv client (running s) = ongoing
end_one_way_recv client (ended s) =
    if s.0 then end_one_way client else fail client (test_started ∷ []) "recv_from"

module _ (fl : Float) where
  open fl use {F}

  -- The loop of a one-way sender; the tasks of several print their errors
  unfoldable pub one_way_send_test : Client F → Inputs F → Run F
  one_way_send_test client i =
      if leb client.config.parallel 1
      then end_one_way_send client (
          send_one_way i.start client.config.duration (replicate client.config.buffer_size 0)
            (bucket_of client.config.bandwidth i.bucket_at) i.one_way_sends)
      else if i.joined
      then end_one_way client
      else ongoing

  unfoldable pub one_way_recv_test : Client F → Inputs F → Run F
  one_way_recv_test client i = end_one_way_recv client (
      run_loop (recv_one_way_step fl i.start client.config.duration) (true, one_way_receiver_new)
        i.one_way_recvs)

  -- The end of `run_udp_send_batched` and of `run_udp_receive`
  unfoldable pub end_udp : Client F → Option (Transfer F) → Run F
  end_udp client none = ongoing
  end_udp client (some t) = complete fl client t (udp_completed fl t.collector)

  -- `run_udp_send` on Linux
  unfoldable pub udp_send_test : Client F → Inputs F → Run F
  udp_send_test client i =
      let bucket = bucket_of client.config.bandwidth i.bucket_at in
      let payload_size = payload_size_of client.config.buffer_size in
      let sizes : Sender.Plan Unit = record {
        batch_size = adaptive_batch_size bucket payload_size;
        payload_size = payload_size;
        duration = client.config.duration;
        remote_addr = tt;
      } in
      end_udp client (
        run_udp_send_batched fl (client_plan client 0 i) sizes bucket client.measurements i.cache
          i.batches i.ended_at)

  unfoldable pub udp_receive_test : Client F → Inputs F → Run F
  udp_receive_test client i =
      if i.greeted
      then end_udp client
          (run_udp_receive fl (client_plan client 0 i) client.measurements i.recvs i.ended_at)
      else fail client (test_started ∷ []) "send"

  -- `run_udp` after its handshake
  unfoldable pub udp_test : Client F → Inputs F → Run F
  udp_test client i =
      if i.bound
      then (elim client.config.one_way [
        | send ↦ one_way_send_test client i
        | receive ↦ one_way_recv_test client i
        | two_way ↦
            if client.config.reverse then udp_receive_test client i else udp_send_test client i
      ])
      else fail client (test_started ∷ []) "bind"

  -- The handshake, and the test if it succeeds
  unfoldable pub after_handshake : Client F → Inputs F → Run F → Run F
  after_handshake client i test =
      if i.connected
      then (if i.written
          then elim (check_ack i.ack) [
            | err e ↦ refused client (err e)
            | ok u ↦ elim (check_start i.start_signal) [
              | err e ↦ refused client (err e)
              | ok v ↦ test
            ]
          ]
          else fail client [] "write")
      else fail client [] "connect"

  unfoldable pub run_tcp : Client F → Inputs F → Run F
  run_tcp client i = after_handshake client i (tcp_test fl client i)

  unfoldable pub run_udp : Client F → Inputs F → Run F
  run_udp client i = after_handshake client i (udp_test client i)

  -- `run`
  unfoldable pub run : Client F → Inputs F → Run F
  run client i = elim client.config.server_addr [
    | none ↦ refused client (err (config_error "Server address not set"))
    | some addr ↦ elim client.config.protocol [ tcp ↦ run_tcp client i | udp ↦ run_udp client i ]
  ]
