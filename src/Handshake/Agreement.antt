-- ===== src/Handshake/Agreement.antt =====
-- After the handshake of src/client.rs and src/server.rs both ends run the same test.
use rperf3_rs.Base.{ℕ, ◌/◌, ◌^◌, ◌≡◌, refl, Bool, true, false, some, if◌then◌else◌, arith}
use rperf3_rs.Base.Text.{String}
use rperf3_rs.Config.{
  Config, Protocol, tcp, udp, as_str, OneWayMode, two_way, send, receive, from_secs,
}
use rperf3_rs.Protocol.{setup, setup_with_one_way, setup_ack, start}
use rperf3_rs.Handshake.{
  Role, sender, receiver, one_way_str, expected_pps_of, setup_of, one_way_of, ServerTest, tcp_test,
  udp_test, udp_config_of, handle_setup, expect_ack, expect_start, client_role, server_role,
  handshake,
}

abbrev pub opposite : Role → Role
opposite sender = receiver
opposite receiver = sender

-- The server's test is the client's: over TCP its duration, direction and bandwidth, over UDP also
-- its buffer size, its one-way mode and the expected rate of one-way tests.
abbrev pub IsSameTest : Config → ServerTest → Type 0
IsSameTest c (tcp_test duration reverse bandwidth) =
    (c.protocol ≡ tcp) × (duration ≡ c.duration) × (reverse ≡ c.reverse) × (bandwidth ≡ c.bandwidth)
IsSameTest c (udp_test d) =
    (c.protocol ≡ udp)
    × (d.duration ≡ c.duration)
    × (d.reverse ≡ c.reverse)
    × (d.bandwidth ≡ c.bandwidth)
    × (d.buffer_size ≡ c.buffer_size)
    × (d.one_way ≡ c.one_way)
    × (d.expected_pps ≡ expected_pps_of c)

-- The handshake succeeds, the server runs the client's test, and one end sends what the other
-- receives.
abbrev pub Agrees : Type 0 → Config → Config → String → ℕ → Type 0
Agrees F client server client_addr now_secs =
    (test : ServerTest) × (handshake F client server client_addr now_secs
      ≡ some (client_role client, test))
    × IsSameTest client test
    × (server_role test ≡ opposite (client_role client))

by_reverse :
    (r : Bool) → (if r then sender else receiver) ≡ opposite (if r then receiver else sender)
by_reverse true = refl
by_reverse false = refl

module _ (F : Type 0) (client server : Config) (client_addr : String) (now_secs secs : ℕ)
    (h : client.duration ≡ from_secs secs) where
  whole : from_secs (client.duration / 10 ^ 9) ≡ client.duration
  whole = omega (arith, h)

  with_mode :
      (p : Protocol) (m : OneWayMode)
      → Agrees F (record client { protocol = p; one_way = m }) server client_addr now_secs
  unfolding handshake handle_setup setup_of setup setup_with_one_way as_str one_way_str one_way_of
      udp_config_of expect_ack expect_start client_role server_role expected_pps_of setup_ack start
  with_mode tcp two_way = (_, refl, (refl, whole, refl, refl), by_reverse client.reverse)
  with_mode tcp send = (_, refl, (refl, whole, refl, refl), by_reverse client.reverse)
  with_mode tcp receive = (_, refl, (refl, whole, refl, refl), by_reverse client.reverse)
  with_mode udp two_way =
      (_, refl, (refl, whole, refl, refl, refl, refl, refl), by_reverse client.reverse)
  with_mode udp send = (_, refl, (refl, whole, refl, refl, refl, refl, refl), refl)
  with_mode udp receive = (_, refl, (refl, whole, refl, refl, refl, refl, refl), refl)

  -- The handshake of a client whose duration is a number of whole seconds succeeds: the server runs
  -- the client's test, and of the two ends one sends and the other receives.
  pub handshake-Agrees : Agrees F client server client_addr now_secs
  handshake-Agrees = with_mode client.protocol client.one_way
