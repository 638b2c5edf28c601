-- ===== src/Cli/Tests.antt =====
-- Runs of the command line, and its theorems at concrete inputs.
use rperf3_rs.Base.{◌*◌, ◌≡◌, ◌↔◌, ◌⊎◌, refl, [], ◌∷◌, none, some, true, false, arith}
use rperf3_rs.Base.Text.{codes}
use rperf3_rs.Cli.Suffix.{
  parse_bandwidth, parse_byte_size, parse_trimmed, split_suffix, split_last, parse_u64,
  parse_digits, trim, trim_start, trim_end, cons_unless_white, is_white, is_digit, bandwidth_units,
  byte_units,
}
use rperf3_rs.Cli.Value.{value, upper_m, spaced, unit_of, parse-spaced}
use rperf3_rs.Cli.Commands.{
  ClientCommand, client_config, client_buffer_size, IsRefused, client_config-none,
}

parse_bandwidth_runs :
    (parse_bandwidth (codes " 100M ") ≡ some 100000000)
    × (parse_bandwidth (codes "") ≡ none)
    × (parse_bandwidth (codes "M") ≡ none)
    × (parse_byte_size (codes "64k") ≡ some 65536)
unfolding parse_bandwidth parse_byte_size parse_trimmed split_suffix split_last parse_u64
    parse_digits trim trim_start trim_end cons_unless_white is_white is_digit
parse_bandwidth_runs = (refl, refl, refl, refl)

-- A product above 64 bits wraps in a release build.
overflow_runs : parse_bandwidth (codes "20000000000G") ≡ some 1553255926290448384
unfolding parse_bandwidth parse_trimmed split_suffix split_last parse_u64 parse_digits trim
    trim_start trim_end cons_unless_white is_white is_digit
overflow_runs = refl

parse-spaced_example :
    (parse_bandwidth (spaced (32 ∷ []) 49 (48 ∷ []) upper_m (10 ∷ []))
      ≡ some (value 0 (49 ∷ 48 ∷ []) * unit_of bandwidth_units upper_m))
    × (parse_byte_size (spaced (32 ∷ []) 49 (48 ∷ []) upper_m (10 ∷ []))
        ≡ some (value 0 (49 ∷ 48 ∷ []) * unit_of byte_units upper_m))
unfolding is_white
parse-spaced_example =
    parse-spaced (32 ∷ []) 49 (48 ∷ []) upper_m (10 ∷ []) (refl, tt) (refl, tt) (omega arith)
      (omega arith) (omega arith) (omega arith)

abbrev command : ClientCommand
command = record {
  server = "192.168.1.100";
  port = 5201;
  is_udp = true;
  time = 10;
  bandwidth = some (codes "fast");
  length = 131072;
  parallel = 1;
  reverse = false;
  json = false;
  interval = 1;
  one_way_send = false;
  one_way_receive = false;
  expected_pps = none;
  socket_buf = none;
}

client_buffer_size_runs : client_buffer_size command ≡ 1500
unfolding client_buffer_size
client_buffer_size_runs = refl

client_config-none_example :
    (client_config (some 4) command ≡ none)
    ↔ (IsRefused parse_bandwidth command.bandwidth ⊎ IsRefused parse_byte_size command.socket_buf)
client_config-none_example = client_config-none (some 4) command
