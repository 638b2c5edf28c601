-- ===== src/Protocol.antt =====
-- src/protocol.rs: the messages of the control connection and their framing. `F` is the type of
-- `f64`. serde_json is third-party code: its two functions are the fields of `Json`.
pub mod Framing
mod Tests
use rperf3_rs.Base.{
  ℕ, ◌+◌, ◌*◌, ◌/◌, ◌^◌, List, [], ◌∷◌, ◌++◌, Option, none, some, Bool, if◌then◌else◌, leb, length,
  take, drop, add64, mul64, as_u32, u32_to_be, u32_from_be,
}
use rperf3_rs.Base.Try.{◌>>=◌}
use rperf3_rs.Base.Text.{String}

abbrev pub protocol_version : ℕ
protocol_version = 1

abbrev pub default_stream_id : ℕ
default_stream_id = 5

unfoldable pub stream_id_for_index : ℕ → ℕ
stream_id_for_index index = add64 default_stream_id (mul64 index 2)

pub record Setup : Type 0 where
  pub version : ℕ
  pub protocol : String
  pub duration : ℕ
  pub bandwidth : Option ℕ
  pub buffer_size : ℕ
  pub parallel : ℕ
  pub reverse : Bool
  pub one_way : Option String
  pub expected_pps : Option ℕ

pub record Interval (F : Type 0) : Type 0 where
  pub stream_id : ℕ
  pub start : F
  pub end : F
  pub bytes : ℕ
  pub bits_per_second : F

pub record TestResult (F : Type 0) : Type 0 where
  pub stream_id : ℕ
  pub bytes_sent : ℕ
  pub bytes_received : ℕ
  pub duration : F
  pub bits_per_second : F
  pub retransmits : Option ℕ
  pub packets_sent : Option ℕ
  pub packets_received : Option ℕ
  pub packet_loss : Option F
  pub jitter_ms : Option F
  pub out_of_order : Option ℕ

pub data Message (F : Type 0) : Type 0 where
  setup_msg : Setup → Message F
  setup_ack_msg : (port : ℕ) → (cookie : String) → Message F
  start_msg : (timestamp : ℕ) → Message F
  interval_msg : Interval F → Message F
  result_msg : TestResult F → Message F
  done_msg : Message F
  error_msg : (message : String) → Message F

module _ {F : Type 0} where
  -- `Message::setup_with_one_way`; the duration is in nanoseconds
  unfoldable pub setup_with_one_way :
      String → ℕ → Option ℕ → ℕ → ℕ → Bool → Option String → Option ℕ → Message F
  setup_with_one_way protocol duration bandwidth buffer_size parallel reverse one_way expected_pps =
      setup_msg (record {
        version = protocol_version;
        protocol = protocol;
        duration = duration / 10 ^ 9;
        bandwidth = bandwidth;
        buffer_size = buffer_size;
        parallel = parallel;
        reverse = reverse;
        one_way = one_way;
        expected_pps = expected_pps;
      })

  -- `Message::setup`
  unfoldable pub setup : String → ℕ → Option ℕ → ℕ → ℕ → Bool → Message F
  setup protocol duration bandwidth buffer_size parallel reverse = setup_msg (record {
    version = protocol_version;
    protocol = protocol;
    duration = duration / 10 ^ 9;
    bandwidth = bandwidth;
    buffer_size = buffer_size;
    parallel = parallel;
    reverse = reverse;
    one_way = none;
    expected_pps = none;
  })

  -- `Message::interval`
  unfoldable pub interval : ℕ → F → F → ℕ → F → Message F
  interval stream_id from to bytes bits_per_second = interval_msg (record {
    stream_id = stream_id;
    start = from;
    end = to;
    bytes = bytes;
    bits_per_second = bits_per_second;
  })

  -- `Message::result`
  unfoldable pub result : ℕ → ℕ → ℕ → F → F → Option ℕ → Message F
  result stream_id bytes_sent bytes_received duration bits_per_second retransmits =
      result_msg (record {
        stream_id = stream_id;
        bytes_sent = bytes_sent;
        bytes_received = bytes_received;
        duration = duration;
        bits_per_second = bits_per_second;
        retransmits = retransmits;
        packets_sent = none;
        packets_received = none;
        packet_loss = none;
        jitter_ms = none;
        out_of_order = none;
      })

  -- `Message::result_one_way`
  unfoldable pub result_one_way : ℕ → ℕ → ℕ → F → F → Option ℕ → ℕ → ℕ → F → F → ℕ → Message F
  result_one_way stream_id bytes_sent bytes_received duration bits_per_second retransmits
        packets_sent packets_received packet_loss jitter_ms out_of_order =
      result_msg (record {
        stream_id = stream_id;
        bytes_sent = bytes_sent;
        bytes_received = bytes_received;
        duration = duration;
        bits_per_second = bits_per_second;
        retransmits = retransmits;
        packets_sent = some packets_sent;
        packets_received = some packets_received;
        packet_loss = some packet_loss;
        jitter_ms = some jitter_ms;
        out_of_order = some out_of_order;
      })

module _ {F : Type 0} where
  unfoldable pub setup_ack : ℕ → String → Message F
  setup_ack port cookie = setup_ack_msg port cookie

  unfoldable pub start : ℕ → Message F
  start timestamp = start_msg timestamp

  unfoldable pub done : Message F
  done = done_msg

  unfoldable pub error : String → Message F
  error message = error_msg message

-- serde_json's `to_vec` and `from_slice`; `none` is an error.
pub record Json (F : Type 0) : Type 0 where
  pub to_vec : Message F → Option (List ℕ)
  pub from_slice : List ℕ → Option (Message F)

-- `read_exact` on a reader that holds these bytes before its end: the bytes, and what is left
unfoldable pub read_exact : ℕ → List ℕ → Option (List ℕ × List ℕ)
read_exact n reader = if leb n (length reader) then some (take n reader, drop n reader) else none

module _ {F : Type 0} (json : Json F) where
  unfoldable pub serialize_message : Message F → Option (List ℕ)
  serialize_message msg = do
    bytes ← json.to_vec msg
    some (u32_to_be (as_u32 (length bytes)) ++ bytes)

  -- What is read once the length is known: the message, and what is left of the reader.
  unfoldable pub read_body : ℕ → List ℕ → Option (Message F × List ℕ)
  read_body len body = do
    (json_bytes, rest) ← read_exact len body
    msg ← json.from_slice json_bytes
    some (msg, rest)

  unfoldable pub deserialize_message : List ℕ → Option (Message F × List ℕ)
  deserialize_message reader = do
    (len_bytes, body) ← read_exact 4 reader
    len ← u32_from_be len_bytes
    read_body len body
