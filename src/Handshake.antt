-- ===== src/Handshake.antt =====
-- How client and server agree on a test: the Setup that `run_tcp` and `run_udp` of src/client.rs send,
-- what `handle_tcp_client` and `handle_udp_test` of src/server.rs make of it, their replies, and which
-- end then sends. The client's address as text and the clock are arguments.
pub mod Agreement
mod Tests
use rperf3_rs.Base.{ℕ, Bool, true, false, Option, none, some, if◌then◌else◌}
use rperf3_rs.Base.Try.{◌>>=◌}
use rperf3_rs.Base.Text.{String, eq_text}
use rperf3_rs.Config.{
  Config, Protocol, tcp, udp, as_str, OneWayMode, two_way, send, receive, from_secs,
}
use rperf3_rs.Protocol.{
  Message, Setup, setup_msg, setup_ack_msg, start_msg, error_msg, setup, setup_with_one_way,
  setup_ack, start,
}

-- Whether an end sends the test's traffic or receives it.
pub data Role : Type 0 where
  sender receiver : Role

-- `one_way_str` of the client
unfoldable pub one_way_str : OneWayMode → Option String
one_way_str send = some "send"
one_way_str receive = some "receive"
one_way_str two_way = none

-- `expected_pps` of the client, beside `one_way_str`
unfoldable pub expected_pps_of : Config → Option ℕ
expected_pps_of c = elim c.one_way [
  | send ↦ c.expected_pps
  | receive ↦ c.expected_pps
  | two_way ↦ none
]

-- The Setup message of a client
unfoldable pub setup_of : {F : Type 0} → Config → Message F
setup_of c = elim (one_way_str c.one_way) [
  | some s ↦
      setup_with_one_way (as_str c.protocol) c.duration c.bandwidth c.buffer_size c.parallel
        c.reverse (some s) (expected_pps_of c)
  | none ↦ setup (as_str c.protocol) c.duration c.bandwidth c.buffer_size c.parallel c.reverse
]

-- `match one_way.as_deref()` of the server
unfoldable pub one_way_of : Option String → OneWayMode
one_way_of none = two_way
one_way_of (some s) =
    if eq_text s "send" then send else if eq_text s "receive" then receive else two_way

-- What the server goes on with: a TCP test, or a UDP test with a configuration of its own.
pub data ServerTest : Type 0 where
  tcp_test : (duration : ℕ) → (reverse : Bool) → (bandwidth : Option ℕ) → ServerTest
  udp_test : Config → ServerTest

-- `udp_config`: the server's configuration with the client's parameters
unfoldable pub udp_config_of : Config → Setup → Config
udp_config_of config s = record config {
  duration = from_secs s.duration;
  reverse = s.reverse;
  bandwidth = s.bandwidth;
  buffer_size = s.buffer_size;
  one_way = one_way_of s.one_way;
  expected_pps = s.expected_pps;
}

-- `handle_tcp_client` up to its replies; `none` is "Expected Setup message"
unfoldable pub handle_setup : {F : Type 0} → Config → Message F → Option ServerTest
handle_setup config (setup_msg s) = some (
    if eq_text s.protocol "Udp"
    then udp_test (udp_config_of config s)
    else tcp_test (from_secs s.duration) s.reverse s.bandwidth)
handle_setup config _ = none

-- The client's checks of the replies
unfoldable pub expect_ack : {F : Type 0} → Message F → Option ℕ
expect_ack (setup_ack_msg port cookie) = some port
expect_ack _ = none

unfoldable pub expect_start : {F : Type 0} → Message F → Option ℕ
expect_start (start_msg timestamp) = some timestamp
expect_start _ = none

-- The end that the client is: the branches of `run_tcp` and `run_udp`
unfoldable pub client_role : Config → Role
client_role c = go c.protocol c.one_way
  where
    by_reverse : Role
    by_reverse = if c.reverse then receiver else sender

    go : Protocol → OneWayMode → Role
    go tcp mode = by_reverse
    go udp send = sender
    go udp receive = receiver
    go udp two_way = by_reverse

-- The end that the server is: the branches of `handle_tcp_client` and `handle_udp_test`
unfoldable pub server_role : ServerTest → Role
server_role (tcp_test duration reverse bandwidth) = if reverse then sender else receiver
server_role (udp_test c) = elim c.one_way [
  | send ↦ receiver
  | receive ↦ sender
  | two_way ↦ if c.reverse then sender else receiver
]

-- The whole handshake: the Setup, the two replies and the client's checks of them.
unfoldable pub handshake : (F : Type 0) → Config → Config → String → ℕ → Option (Role × ServerTest)
handshake F client server client_addr now_secs = do
  test ← handle_setup server (setup_of {F = F} client)
  port ← expect_ack (setup_ack {F = F} server.port client_addr)
  timestamp ← expect_start (start {F = F} now_secs)
  some (client_role client, test)
