-- ===== src/Config.antt =====
-- src/config.rs: the settings of a test and the builder. A `Duration` is a number of nanoseconds; an
-- address is the text it is parsed from; the processors that the platform reports are an argument.
use rperf3_rs.Base.{ℕ, ◌*◌, ◌^◌, Bool, false, Option, none, some}
use rperf3_rs.Base.Text.{String}

pub data Protocol : Type 0 where
  tcp udp : Protocol

-- `Protocol::as_str`
unfoldable pub as_str : Protocol → String
as_str tcp = "Tcp"
as_str udp = "Udp"

pub data Mode : Type 0 where
  server client : Mode

-- `OneWayMode`: `None`, `Send`, `Receive`
pub data OneWayMode : Type 0 where
  two_way send receive : OneWayMode

pub record Config : Type 0 where
  pub mode : Mode
  pub protocol : Protocol
  pub port : ℕ
  pub server_addr : Option String
  pub bind_addr : Option String
  pub duration : ℕ
  pub bandwidth : Option ℕ
  pub buffer_size : ℕ
  pub parallel : ℕ
  pub reverse : Bool
  pub json : Bool
  pub interval : ℕ
  pub one_way : OneWayMode
  pub expected_pps : Option ℕ
  pub socket_buf : ℕ
  pub recv_workers : ℕ

-- `Duration::from_secs`
abbrev pub from_secs : ℕ → ℕ
from_secs n = n * 10 ^ 9

-- `Config::default`, and `Config::new`; the argument is `available_parallelism()`, `none` an error
unfoldable pub config_default : Option ℕ → Config
config_default parallelism = record {
  mode = client;
  protocol = tcp;
  port = 5201;
  server_addr = none;
  bind_addr = none;
  duration = from_secs 10;
  bandwidth = none;
  buffer_size = 128 * 1024;
  parallel = 1;
  reverse = false;
  json = false;
  interval = from_secs 1;
  one_way = two_way;
  expected_pps = none;
  socket_buf = 0;
  recv_workers = elim parallelism [ none ↦ 1 | some n ↦ n ];
}

-- `Config::server`
unfoldable pub config_server : Option ℕ → ℕ → Config
unfolding config_default
config_server parallelism port = record (config_default parallelism) { mode = server; port = port }

-- `Config::client`
unfoldable pub config_client : Option ℕ → String → ℕ → Config
unfolding config_default
config_client parallelism server_addr port = record (config_default parallelism) {
  mode = client;
  server_addr = some server_addr;
  port = port;
}

unfoldable pub with_protocol : Protocol → Config → Config
with_protocol protocol c = record c { protocol = protocol }

unfoldable pub with_duration : ℕ → Config → Config
with_duration duration c = record c { duration = duration }

unfoldable pub with_bandwidth : ℕ → Config → Config
with_bandwidth bandwidth c = record c { bandwidth = some bandwidth }

unfoldable pub with_buffer_size : ℕ → Config → Config
with_buffer_size size c = record c { buffer_size = size }

unfoldable pub with_parallel : ℕ → Config → Config
with_parallel parallel c = record c { parallel = parallel }

unfoldable pub with_reverse : Bool → Config → Config
with_reverse reverse c = record c { reverse = reverse }

unfoldable pub with_json : Bool → Config → Config
with_json json c = record c { json = json }

unfoldable pub with_interval : ℕ → Config → Config
with_interval interval c = record c { interval = interval }

unfoldable pub with_one_way_send : Config → Config
with_one_way_send c = record c { one_way = send }

unfoldable pub with_one_way_receive : Config → Config
with_one_way_receive c = record c { one_way = receive }

unfoldable pub with_expected_pps : ℕ → Config → Config
with_expected_pps pps c = record c { expected_pps = some pps }

unfoldable pub with_socket_buf : ℕ → Config → Config
with_socket_buf size c = record c { socket_buf = size }

unfoldable pub with_recv_workers : ℕ → Config → Config
with_recv_workers workers c = record c { recv_workers = workers }
