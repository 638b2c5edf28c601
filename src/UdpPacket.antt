-- ===== src/UdpPacket.antt =====
-- src/udp_packet.rs: the header of a test packet, its bytes, and the cached send timestamps.
-- A clock reading is an argument: a number of microseconds since the UNIX epoch for
-- `SystemTime::now()` (a reading before the epoch panics in the source), and a number of
-- nanoseconds for an `Instant`.
pub mod Roundtrip
pub mod Timestamp
mod Tests
use rperf3_rs.Base.{
  ℕ, ◌+◌, ◌-◌, ◌/◌, List, [], ◌∷◌, ◌++◌, Option, none, some, if◌then◌else◌, ltb, leb, ◌==◌, not,
  length, take, drop, slice, resize, replicate, copy_at, add64, as_u64, u32_to_be, u32_from_be,
  u64_to_be, u64_from_be,
}
use rperf3_rs.Base.Try.{◌>>=◌}

-- `RPERF3_UDP_MAGIC`, "RPF3"
abbrev pub rperf3_udp_magic : ℕ
rperf3_udp_magic = 0x52504633

-- `UdpPacketHeader`: three u32 fields and a u64
pub record UdpPacketHeader : Type 0 where
  pub magic : ℕ
  pub stream_id : ℕ
  pub sequence : ℕ
  pub timestamp_us : ℕ

-- `UdpPacketHeader::SIZE`
abbrev pub header_size : ℕ
header_size = 20

-- `UdpPacketHeader::new`
unfoldable pub header_new : ℕ → ℕ → ℕ → UdpPacketHeader
header_new stream_id sequence timestamp_us = record {
  magic = rperf3_udp_magic;
  stream_id = stream_id;
  sequence = sequence;
  timestamp_us = timestamp_us;
}

-- `UdpPacketHeader::with_current_time`, `now_us` what the system clock says
unfoldable pub with_current_time : ℕ → ℕ → ℕ → UdpPacketHeader
unfolding header_new
with_current_time now_us stream_id sequence = header_new stream_id sequence (as_u64 now_us)

unfoldable pub to_bytes : UdpPacketHeader → List ℕ
to_bytes h =
    let b0 = replicate header_size 0 in
    let b1 = copy_at b0 0 (u32_to_be h.magic) in
    let b2 = copy_at b1 4 (u32_to_be h.stream_id) in
    let b3 = copy_at b2 8 (u32_to_be h.sequence) in copy_at b3 12 (u64_to_be h.timestamp_us)

-- What `from_bytes` reads once the length is known to suffice.
unfoldable pub read_fields : List ℕ → Option UdpPacketHeader
read_fields bytes = do
  magic ← u32_from_be (slice bytes 0 4)
  if not (magic == rperf3_udp_magic) then none else do
    stream_id ← u32_from_be (slice bytes 4 8)
    sequence ← u32_from_be (slice bytes 8 12)
    timestamp_us ← u64_from_be (slice bytes 12 20)
    some (record {
      magic = magic;
      stream_id = stream_id;
      sequence = sequence;
      timestamp_us = timestamp_us;
    })

unfoldable pub from_bytes : List ℕ → Option UdpPacketHeader
from_bytes bytes = if ltb (length bytes) header_size then none else read_fields bytes

-- `create_packet`: the vector is extended by the header and resized with zeros
unfoldable pub create_packet : ℕ → ℕ → ℕ → ℕ → List ℕ
unfolding with_current_time
create_packet now_us stream_id sequence payload_size =
    resize (to_bytes (with_current_time now_us stream_id sequence)) (header_size + payload_size) 0

-- `TimestampCache`; `last_update` is an `Instant`
pub record TimestampCache : Type 0 where
  pub cached_timestamp_us : ℕ
  pub last_update : ℕ
  pub update_interval_us : ℕ

-- The clocks that a call reads, in order: an `Instant`, the system clock, an `Instant`.
pub record Readings : Type 0 where
  pub elapsed_at : ℕ
  pub wall_us : ℕ
  pub updated_at : ℕ

-- `TimestampCache::new`
unfoldable pub cache_new : Readings → TimestampCache
cache_new r = record {
  cached_timestamp_us = as_u64 r.wall_us;
  last_update = r.updated_at;
  update_interval_us = 1000;
}

-- `self.last_update.elapsed().as_micros() as u64`; `Instant::elapsed` stops at 0
abbrev pub elapsed_us : TimestampCache → Readings → ℕ
elapsed_us c r = as_u64 ((r.elapsed_at - c.last_update) / 1000)

unfoldable pub get_timestamp : TimestampCache → Readings → ℕ × TimestampCache
get_timestamp c r =
    if leb c.update_interval_us (elapsed_us c r)
    then (
      as_u64 r.wall_us,
      record c { cached_timestamp_us = as_u64 r.wall_us; last_update = r.updated_at },
    )
    else (add64 c.cached_timestamp_us (elapsed_us c r), c)

-- `create_packet_fast`, over the thread's cache
unfoldable pub create_packet_fast : TimestampCache → Readings → ℕ → ℕ → ℕ → List ℕ × TimestampCache
create_packet_fast c r stream_id sequence payload_size =
    let (timestamp_us, c') = get_timestamp c r in
    (
      resize (to_bytes (header_new stream_id sequence timestamp_us)) (header_size + payload_size) 0,
      c',
    )

unfoldable pub parse_packet : List ℕ → Option (UdpPacketHeader × List ℕ)
parse_packet packet = do header ← from_bytes packet; some (header, drop header_size packet)
