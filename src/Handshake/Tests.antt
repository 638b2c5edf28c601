-- ===== src/Handshake/Tests.antt =====
-- A run of the handshake, and its theorem at a concrete input.
use rperf3_rs.Base.{ℕ, ◌≡◌, refl, none, some, false}
use rperf3_rs.Config.{Config, client, server, two_way, udp, send, from_secs}
use rperf3_rs.Handshake.{handle_setup}
use rperf3_rs.Handshake.Agreement.{Agrees, handshake-Agrees}
use rperf3_rs.Protocol.{Message, done_msg}

abbrev asking : Config
asking = record {
  mode = client;
  protocol = udp;
  port = 5201;
  server_addr = some "192.168.1.100";
  bind_addr = none;
  duration = from_secs 10;
  bandwidth = some 1000000;
  buffer_size = 1500;
  parallel = 1;
  reverse = false;
  json = false;
  interval = from_secs 1;
  one_way = send;
  expected_pps = some 5000;
  socket_buf = 0;
  recv_workers = 1;
}

abbrev answering : Config
answering = record asking { mode = server; one_way = two_way; expected_pps = none }

abbrev ended : Message ℕ
ended = done_msg

-- Anything but a Setup is refused.
refusal_runs : handle_setup answering ended ≡ none
unfolding handle_setup
refusal_runs = refl

handshake-Agrees_example : Agrees ℕ asking answering "10.0.0.1:40000" 1700000000
handshake-Agrees_example = handshake-Agrees ℕ asking answering "10.0.0.1:40000" 1700000000 10 refl
