-- ===== src/OneWay.antt =====
-- The receivers of one-way UDP tests in src/server.rs: `recv_one_way_server_with_socket`, and the
-- tracker of `recv_one_way_receiver`. A round of the loop is what the clock and the socket say in
-- it; printing is left out.
pub mod Count
pub mod Loop
mod Tests
use rperf3_rs.Base.{
  ℕ, ◌+◌, ◌-◌, ◌*◌, ◌^◌, List, [], ◌∷◌, Option, none, some, if◌then◌else◌, leb, ltb, ◌==◌, length,
  add64, add32, min,
}
use rperf3_rs.Base.Float.{Float}
use rperf3_rs.Measurements.Data.{ServerOneWayStats}

-- What a sequence number does to a stream: the lost, the out-of-order, and the number expected next.
pub record Observation : Type 0 where
  pub lost : ℕ
  pub late : ℕ
  pub expected_seq : ℕ

unfoldable pub observe : ℕ → ℕ → Observation
observe expected_seq seq =
    if ltb expected_seq seq
    then record { lost = seq - expected_seq; late = 0; expected_seq = add32 seq 1 }
    else if ltb seq expected_seq
    then record { lost = 0; late = 1; expected_seq = expected_seq }
    else record { lost = 0; late = 0; expected_seq = add32 expected_seq 1 }

-- `StreamState`, and the map of them by stream id
pub record StreamState : Type 0 where
  pub stream_id : ℕ
  pub expected_seq : ℕ

-- The map after a packet, with what was observed.
pub record Tracked : Type 0 where
  pub lost : ℕ
  pub late : ℕ
  pub states : List StreamState

-- `entry(stream_id).or_insert_with(..)`, then the observation
unfoldable pub track : List StreamState → ℕ → ℕ → Tracked
track [] stream_id seq =
    let o = observe seq seq in
    record {
      lost = o.lost;
      late = o.late;
      states = record { stream_id = stream_id; expected_seq = o.expected_seq } ∷ [];
    }
track (s ∷ ss) stream_id seq =
    let o = observe s.expected_seq seq in
    let rest = track ss stream_id seq in
    if s.stream_id == stream_id
    then record {
      lost = o.lost;
      late = o.late;
      states = record s { expected_seq = o.expected_seq } ∷ ss;
    }
    else record { lost = rest.lost; late = rest.late; states = s ∷ rest.states }

-- Sequence number and stream id: the first eight bytes, if there are as many
unfoldable pub read_header : List ℕ → Option (ℕ × ℕ)
read_header (a ∷ b ∷ c ∷ d ∷ e ∷ f ∷ g ∷ h ∷ rest) =
    some (a * 2 ^ 24 + b * 2 ^ 16 + c * 2 ^ 8 + d, e * 2 ^ 24 + f * 2 ^ 16 + g * 2 ^ 8 + h)
read_header _ = none

-- The variables of `recv_one_way_server_with_socket`.
pub record Receiver : Type 0 where
  pub bytes_received : ℕ
  pub packets_received : ℕ
  pub out_of_order : ℕ
  pub packets_lost : ℕ
  pub stream_states : List StreamState
  pub interval_bytes : ℕ
  pub interval_start : ℕ
  pub prev_interval_end : ℕ

unfoldable pub receiver_new : ℕ → Receiver
receiver_new start = record {
  bytes_received = 0;
  packets_received = 0;
  out_of_order = 0;
  packets_lost = 0;
  stream_states = [];
  interval_bytes = 0;
  interval_start = start;
  prev_interval_end = start;
}

-- The counters of a datagram, before its header is read.
unfoldable pub count_datagram : Receiver → ℕ → Receiver
count_datagram r n = record r {
  bytes_received = add64 r.bytes_received n;
  interval_bytes = add64 r.interval_bytes n;
  packets_received = add64 r.packets_received 1;
}

unfoldable pub track_header : Receiver → Option (ℕ × ℕ) → Receiver
track_header r none = r
track_header r (some (seq, stream_id)) =
    let t = track r.stream_states stream_id seq in
    record r {
      packets_lost = add64 r.packets_lost t.lost;
      out_of_order = add64 r.out_of_order t.late;
      stream_states = t.states;
    }

-- A datagram, as the buffer holds it.
unfoldable pub receive_datagram : Receiver → List ℕ → Receiver
receive_datagram r bytes = track_header (count_datagram r (length bytes)) (read_header bytes)

-- What `timeout(.., recv_from(..))` gives.
pub data Outcome : Type 0 where
  datagram : List ℕ → Outcome
  io_error timed_out : Outcome

-- A round: the clock at its start, the outcome, and the clock after it.
pub record Round : Type 0 where
  pub now : ℕ
  pub outcome : Outcome
  pub current : ℕ

-- The interval variables are reset once a second.
unfoldable pub tick : Receiver → ℕ → Receiver
tick r current =
    if leb (10 ^ 9) (current - r.prev_interval_end)
    then record r { interval_bytes = 0; interval_start = current; prev_interval_end = current }
    else r

-- How the loop stands after the rounds: over, left by an error, or waiting for more.
pub data Progress : Type 0 where
  finished : Receiver → Progress
  broken : Progress
  waiting : Receiver → Progress

-- The loop of `recv_one_way_server_with_socket`.
unfoldable pub receive_loop : ℕ → Receiver → List Round → Progress
receive_loop test_end r [] = waiting r
receive_loop test_end r (x ∷ xs) =
    let ticked = tick r x.current in
    let quiet = receive_loop test_end ticked xs in
    let next : Progress = elim x.outcome [
      | io_error ↦ broken
      | timed_out ↦ quiet
      | datagram bytes ↦ receive_loop test_end (receive_datagram ticked bytes) xs
    ] in
    if leb test_end x.now then finished r else next

module _ (fl : Float) where
  open fl use {F, of_u64, mul, div}

  -- `(packets_lost as f64 / total_sent as f64) * 100.0`, if any packet was sent
  unfoldable pub packet_loss_of : ℕ → ℕ → Option F
  packet_loss_of received lost =
      let total_sent = add64 received lost in
      if ltb 0 total_sent
      then some (mul (div (of_u64 lost) (of_u64 total_sent)) (of_u64 100))
      else none

  -- What `recv_one_way_server_with_socket` returns at the end, `elapsed` its duration.
  unfoldable pub stats_of : Receiver → ℕ → ServerOneWayStats F
  stats_of r elapsed = record {
    bytes_received = r.bytes_received;
    packets_received = r.packets_received;
    out_of_order = r.out_of_order;
    packets_lost = r.packets_lost;
    packet_loss = packet_loss_of r.packets_received r.packets_lost;
    duration = elapsed;
  }

-- The shared counters of `recv_one_way_receiver`, and the number that its socket expects.
pub record SocketReceiver : Type 0 where
  pub bytes_received : ℕ
  pub packets_received : ℕ
  pub out_of_order : ℕ
  pub packets_lost : ℕ
  pub expected_seq : ℕ

unfoldable pub socket_header : SocketReceiver → Option (ℕ × ℕ) → SocketReceiver
socket_header r none = r
socket_header r (some (seq, stream_id)) =
    let o = observe r.expected_seq seq in
    record r {
      packets_lost = add64 r.packets_lost o.lost;
      out_of_order = add64 r.out_of_order o.late;
      expected_seq = o.expected_seq;
    }

-- A datagram in `recv_one_way_receiver`
unfoldable pub socket_datagram : SocketReceiver → List ℕ → SocketReceiver
socket_datagram r bytes =
    socket_header
      (record r {
        bytes_received = add64 r.bytes_received (length bytes);
        packets_received = add64 r.packets_received 1;
      })
      (read_header bytes)

-- The loop of `recv_one_way_receiver`, which goes on after an error.
unfoldable pub socket_loop : ℕ → SocketReceiver → List Round → SocketReceiver
socket_loop test_end r [] = r
socket_loop test_end r (x ∷ xs) =
    let quiet = socket_loop test_end r xs in
    let next : SocketReceiver = elim x.outcome [
      | io_error ↦ quiet
      | timed_out ↦ quiet
      | datagram bytes ↦ socket_loop test_end (socket_datagram r bytes) xs
    ] in
    if leb test_end x.now then r else next
