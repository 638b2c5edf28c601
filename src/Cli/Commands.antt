-- ===== src/Cli/Commands.antt =====
-- `Commands` and `main` of src/bin/main.rs: the settings that a command makes. The parser of
-- addresses and the processors that the platform reports are arguments.
use rperf3_rs.Base.{
  ℕ, ◌==◌, ◌&&◌, ◌≡◌, ◌↔◌, ◌⊎◌, inl, inr, refl, List, Bool, Option, none, some, if◌then◌else◌,
  Option-cases, arith,
}
use rperf3_rs.Base.Try.{◌>>=◌}
use rperf3_rs.Base.Text.{String}
use rperf3_rs.Config.{
  Config, tcp, udp, from_secs, config_server, config_client, with_protocol, with_duration,
  with_bandwidth, with_buffer_size, with_parallel, with_reverse, with_json, with_interval,
  with_one_way_send, with_one_way_receive, with_expected_pps, with_socket_buf, with_recv_workers,
}
use rperf3_rs.Cli.Suffix.{parse_bandwidth, parse_byte_size}

-- `Commands::Server`
pub record ServerCommand : Type 0 where
  pub port : ℕ
  pub bind : Option String
  pub is_udp : Bool
  pub json : Bool
  pub interval : ℕ
  pub socket_buf : Option (List ℕ)
  pub recv_workers : ℕ

-- `Commands::Client`
pub record ClientCommand : Type 0 where
  pub server : String
  pub port : ℕ
  pub is_udp : Bool
  pub time : ℕ
  pub bandwidth : Option (List ℕ)
  pub length : ℕ
  pub parallel : ℕ
  pub reverse : Bool
  pub json : Bool
  pub interval : ℕ
  pub one_way_send : Bool
  pub one_way_receive : Bool
  pub expected_pps : Option ℕ
  pub socket_buf : Option (List ℕ)

-- `if let Some(s) = text { config = set(parse(&s)?, config) }`
unfoldable pub set_parsed {ℓ κ} :
    {A : Type ℓ} {B : Type κ}
    → (A → Option B)
    → (B → Config → Config)
    → Option A
    → Config
    → Option Config
set_parsed parse set none c = some c
set_parsed parse set (some s) c = do value ← parse s; some (set value c)

-- The buffer size: 1500 for UDP in place of the default
unfoldable pub client_buffer_size : ClientCommand → ℕ
client_buffer_size cmd = if cmd.is_udp && (cmd.length == 131072) then 1500 else cmd.length

unfoldable pub with_bind_addr : String → Config → Config
with_bind_addr a c = record c { bind_addr = some a }

unfoldable pub server_config : Option ℕ → (String → Option String) → ServerCommand → Option Config
server_config parallelism parse_addr cmd =
    let protocol = if cmd.is_udp then udp else tcp in
    let config = with_recv_workers cmd.recv_workers (
      with_interval (from_secs cmd.interval)
        (with_json cmd.json (with_protocol protocol (config_server parallelism cmd.port)))) in
    do
      bound ← set_parsed parse_addr with_bind_addr cmd.bind config
      set_parsed parse_byte_size with_socket_buf cmd.socket_buf bound

-- The settings before the texts are parsed.
unfoldable pub client_base : Option ℕ → ClientCommand → Config
client_base parallelism cmd =
    let protocol = if cmd.is_udp then udp else tcp in
    let config = with_interval (from_secs cmd.interval) (
      with_json cmd.json (
        with_reverse cmd.reverse (
          with_parallel cmd.parallel (
            with_buffer_size (client_buffer_size cmd) (
              with_duration (from_secs cmd.time)
                (with_protocol protocol (config_client parallelism cmd.server cmd.port))))))) in
    let directed =
      if cmd.one_way_send
      then with_one_way_send config
      else if cmd.one_way_receive
      then with_one_way_receive config
      else config in
    elim cmd.expected_pps [ none ↦ directed | some pps ↦ with_expected_pps pps directed ]

unfoldable pub client_config : Option ℕ → ClientCommand → Option Config
client_config parallelism cmd = do
  limited ← set_parsed parse_bandwidth with_bandwidth cmd.bandwidth (client_base parallelism cmd)
  set_parsed parse_byte_size with_socket_buf cmd.socket_buf limited

-- A text that was given and does not parse.
pub record IsRefused {ℓ κ} {A : Type ℓ} {B : Type κ} (parse : A → Option B) (text : Option A)
    : Type (ℓ ⊔ κ) where
  pub given : A
  pub is_given : text ≡ some given
  pub unparsed : parse given ≡ none

module _ {ℓ κ} {A : Type ℓ} {B : Type κ} (parse : A → Option B) (set : B → Config → Config) where
  set_parsed-cases :
      (text : Option A) (c : Config)
      → ((d : Config) × (set_parsed parse set text c ≡ some d))
        ⊎ (IsRefused parse text × (set_parsed parse set text c ≡ none))
  unfolding set_parsed
  set_parsed-cases none c = inl (c, refl)
  set_parsed-cases (some s) c = elim (Option-cases (parse s)) [
    | inl e ↦ inr (record { given = s; is_given = refl; unparsed = e }, rw e)
    | inr (v, e) ↦ inl (set v c, rw e)
  ]

  set_parsed-IsRefused :
      (text : Option A) (c : Config) → IsRefused parse text → set_parsed parse set text c ≡ none
  unfolding set_parsed
  set_parsed-IsRefused text c r = rw (r.is_given, r.unparsed)

module _ (parallelism : Option ℕ) (cmd : ClientCommand) where
  refused :
      client_config parallelism cmd ≡ none
      → IsRefused parse_bandwidth cmd.bandwidth ⊎ IsRefused parse_byte_size cmd.socket_buf
  unfolding client_config
  refused h =
      elim (set_parsed-cases parse_bandwidth with_bandwidth cmd.bandwidth
        (client_base parallelism cmd)) [
          | inr (r, e) ↦ inl r
          | inl (d, e) ↦ elim (set_parsed-cases parse_byte_size with_socket_buf cmd.socket_buf d) [
            | inr (r, f) ↦ inr r
            | inl (x, f) ↦ absurd (ground arith)
          ]
        ]

  unparsed :
      IsRefused parse_bandwidth cmd.bandwidth ⊎ IsRefused parse_byte_size cmd.socket_buf
      → client_config parallelism cmd ≡ none
  unfolding client_config
  unparsed (inl r) =
      let e =
        set_parsed-IsRefused parse_bandwidth with_bandwidth cmd.bandwidth
          (client_base parallelism cmd) r in
      rw e
  unparsed (inr r) =
      elim (set_parsed-cases parse_bandwidth with_bandwidth cmd.bandwidth
        (client_base parallelism cmd)) [
          | inr (q, e) ↦ rw e
          | inl (d, e) ↦
              rw e (set_parsed-IsRefused parse_byte_size with_socket_buf cmd.socket_buf d r)
        ]

  -- A client command is refused exactly if its bandwidth or its buffer size is given and does not
  -- parse.
  pub client_config-none :
      (client_config parallelism cmd ≡ none)
      ↔ (IsRefused parse_bandwidth cmd.bandwidth ⊎ IsRefused parse_byte_size cmd.socket_buf)
  client_config-none = (refused, unparsed)
