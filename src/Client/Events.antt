-- ===== src/Client/Events.antt =====
-- The progress events that a session of src/client.rs gives to the callback.
use rperf3_rs.Base.{
  ◌≡◌, refl, Option, none, some, List, [], ◌∷◌, ◌++◌, Bool, true, false, map, if◌then◌else◌, leb,
  inl, inr, ◌⊎◌,
}
use rperf3_rs.Base.Text.{String}
use rperf3_rs.Base.Float.{Float}
use rperf3_rs.Error.{Error, config_error, Result, ok, err}
use rperf3_rs.Config.{Config, Protocol, tcp, udp, OneWayMode, send, receive, two_way}
use rperf3_rs.Reporter.{IntervalUpdate}
use rperf3_rs.Traffic.{Transfer, Stage, running, ended}
use rperf3_rs.Traffic.Tcp.{client_receive_data, client_send_data}
use rperf3_rs.OneWayClient.{OneWaySender, OneWayReceiver}
use rperf3_rs.Client.{
  TestCompleted, ProgressEvent, test_started, interval_update, test_completed, Client, Inputs, Run,
  ongoing, panicked, returned, check_ack, check_start, notify, fail, updates_of, complete, end_tcp,
  tcp_test,
}
use rperf3_rs.Client.Sessions.{
  refused, end_one_way, end_one_way_send, end_one_way_recv, one_way_send_test, one_way_recv_test,
  end_udp, udp_send_test, udp_receive_test, udp_test, after_handshake, run_tcp, run_udp, run,
}

-- The start of a test, its interval updates, and its completion.
abbrev pub IsCompleted : {F : Type 0} → Client F → List (ProgressEvent F) → Type 0
IsCompleted {F} client events =
    (updates : List (IntervalUpdate F)) × (completed : TestCompleted F) × (events
      ≡ notify client
          (test_started ∷ (map interval_update updates ++ (test_completed completed ∷ []))))

abbrev pub IsOneWay : Config → Type 0
IsOneWay config = (config.protocol ≡ udp) × (config.one_way ≡ send ⊎ config.one_way ≡ receive)

-- A session that returns well gave its callback the start, the updates and one completion, or the
-- start alone in a one-way test; one that fails gave nothing, or the start and updates.
abbrev pub IsOrderly : {F : Type 0} → Client F → Run F → Type 0
IsOrderly client ongoing = Unit
IsOrderly client panicked = Unit
IsOrderly {F} client (returned e) = elim e.result [
  | ok u ↦
      IsCompleted client e.events
      ⊎ (IsOneWay client.config × (e.events ≡ notify client (test_started ∷ [])))
  | err x ↦
      (e.events ≡ notify client [])
      ⊎ ((updates : List (IntervalUpdate F)) × (e.events
            ≡ notify client (test_started ∷ map interval_update updates)))
]

-- A guard keeps what both branches have.
either :
    {F : Type 0} (client : Client F) (b : Bool) (q r : Run F)
    → IsOrderly client q
    → IsOrderly client r
    → IsOrderly client (if b then q else r)
either client true q r x y = x
either client false q r x y = y

fail-IsOrderly :
    {F : Type 0} (client : Client F) (message : String)
    → IsOrderly client (fail client [] message)
      × IsOrderly client (fail client (test_started ∷ []) message)
unfolding fail
fail-IsOrderly client message = (inl refl, inr ([], refl))

end_one_way-IsOrderly :
    {F : Type 0} (client : Client F)
    → IsOneWay client.config
    → IsOrderly client (end_one_way client)
unfolding end_one_way
end_one_way-IsOrderly client w = inr (w, refl)

refused-IsOrderly :
    {F : Type 0} (client : Client F) (x : Error) → IsOrderly client (refused client (err x))
unfolding refused
refused-IsOrderly client x = inl refl

end_one_way_send-IsOrderly :
    {F : Type 0} (client : Client F) (o : Option (Stage OneWaySender))
    → IsOneWay client.config
    → IsOrderly client (end_one_way_send client o)
unfolding end_one_way_send
end_one_way_send-IsOrderly client none w = tt
end_one_way_send-IsOrderly client (some (running s)) w = tt
end_one_way_send-IsOrderly client (some (ended s)) w =
    either client s.is_failed _ _ (fail-IsOrderly client "send_to").1
      (end_one_way-IsOrderly client w)

end_one_way_recv-IsOrderly :
    {F : Type 0} (client : Client F) (r : Stage (Bool × OneWayReceiver F))
    → IsOneWay client.config
    → IsOrderly client (end_one_way_recv client r)
unfolding end_one_way_recv
end_one_way_recv-IsOrderly client (running s) w = tt
end_one_way_recv-IsOrderly client (ended s) w =
    either client s.0 _ _ (end_one_way-IsOrderly client w) (fail-IsOrderly client "recv_from").1

module _ (fl : Float) (client : Client (fl.F)) (i : Inputs (fl.F)) where
  open fl use {F}

  complete-IsOrderly :
      (t : Transfer F) (completed : TestCompleted F)
      → IsOrderly client (complete fl client t completed)
  unfolding complete
  complete-IsOrderly t completed = inl (updates_of fl client t, completed, refl)

  end_tcp-IsOrderly :
      (flushed : Bool) (t : Transfer F) → IsOrderly client (end_tcp fl client flushed t)
  unfolding end_tcp
  end_tcp-IsOrderly true t = complete-IsOrderly t _
  end_tcp-IsOrderly false t = inr (updates_of fl client t, refl)

  tcp_test-IsOrderly : IsOrderly client (tcp_test fl client i)
  unfolding tcp_test
  tcp_test-IsOrderly =
      either client client.config.reverse _ _
        (received (client_receive_data fl _ _ i.reads i.ended_at))
        (sent (client_send_data fl _ _ i.writes i.ended_at i.flushed))
    where
      received :
          (o : Option (Transfer F))
          → IsOrderly client (elim o [ none ↦ ongoing | some t ↦ end_tcp fl client true t ])
      received none = tt
      received (some t) = end_tcp-IsOrderly true t

      sent :
          (o : Option (Bool × Transfer F))
          → IsOrderly client
              (elim o [ none ↦ ongoing | some (flushed, t) ↦ end_tcp fl client flushed t ])
      sent none = tt
      sent (some (flushed, t)) = end_tcp-IsOrderly flushed t

  end_udp-IsOrderly : (o : Option (Transfer F)) → IsOrderly client (end_udp fl client o)
  unfolding end_udp
  end_udp-IsOrderly none = tt
  end_udp-IsOrderly (some t) = complete-IsOrderly t _

  one_way_send_test-IsOrderly :
      IsOneWay client.config → IsOrderly client (one_way_send_test fl client i)
  unfolding one_way_send_test
  one_way_send_test-IsOrderly w =
      either client (leb client.config.parallel 1) _ _ (end_one_way_send-IsOrderly client _ w)
        (either client i.joined _ _ (end_one_way-IsOrderly client w) tt)

  udp_test-IsOrderly : client.config.protocol ≡ udp → IsOrderly client (udp_test fl client i)
  unfolding udp_test one_way_recv_test udp_send_test udp_receive_test
  udp_test-IsOrderly h =
      either client i.bound _ _ (by_mode client.config.one_way refl)
        (fail-IsOrderly client "bind").1
    where
      by_mode :
          (m : OneWayMode)
          → client.config.one_way ≡ m
          → IsOrderly client (elim m [
            | send ↦ one_way_send_test fl client i
            | receive ↦ one_way_recv_test fl client i
            | two_way ↦
                if client.config.reverse
                then udp_receive_test fl client i
                else udp_send_test fl client i
          ])
      by_mode send e = one_way_send_test-IsOrderly (h, inl e)
      by_mode receive e = end_one_way_recv-IsOrderly client _ (h, inr e)
      by_mode two_way e =
          either client client.config.reverse _ _
            (either client i.greeted _ _ (end_udp-IsOrderly _) (fail-IsOrderly client "send").1)
            (end_udp-IsOrderly _)

  after_handshake-IsOrderly :
      (test : Run F) → IsOrderly client test → IsOrderly client (after_handshake fl client i test)
  unfolding after_handshake
  after_handshake-IsOrderly test v =
      either client i.connected _ _
        (either client i.written _ _ (acknowledged (check_ack i.ack))
          (fail-IsOrderly client "write").0)
        (fail-IsOrderly client "connect").0
    where
      signalled :
          (r : Result Unit)
          → IsOrderly client (elim r [ err e ↦ refused client (err e) | ok v ↦ test ])
      signalled (err e) = refused-IsOrderly client e
      signalled (ok u) = v

      acknowledged :
          (r : Result Unit)
          → IsOrderly client (elim r [
            | err e ↦ refused client (err e)
            | ok u ↦ elim (check_start i.start_signal) [
              | err e ↦ refused client (err e)
              | ok v ↦ test
            ]
          ])
      acknowledged (err e) = refused-IsOrderly client e
      acknowledged (ok u) = signalled (check_start i.start_signal)

  -- A session that returns well has given its callback, if there is one, the start of the test, its
  -- interval updates, and one completion at the end, or in a one-way test the start alone; one that
  -- fails has given it nothing, or the start and interval updates, and no completion. The printing of
  -- the results is left out.
  pub run-IsOrderly : IsOrderly client (run fl client i)
  unfolding run run_tcp run_udp
  run-IsOrderly = addressed client.config.server_addr
    where
      by_protocol :
          (p : Protocol)
          → client.config.protocol ≡ p
          → IsOrderly client (elim p [ tcp ↦ run_tcp fl client i | udp ↦ run_udp fl client i ])
      by_protocol tcp e = after_handshake-IsOrderly _ tcp_test-IsOrderly
      by_protocol udp e = after_handshake-IsOrderly _ (udp_test-IsOrderly e)

      addressed :
          (o : Option String)
          → IsOrderly client (elim o [
            | none ↦ refused client (err (config_error "Server address not set"))
            | some addr ↦ elim client.config.protocol [
              | tcp ↦ run_tcp fl client i
              | udp ↦ run_udp fl client i
            ]
          ])
      addressed none = refused-IsOrderly client _
      addressed (some addr) = by_protocol client.config.protocol refl
