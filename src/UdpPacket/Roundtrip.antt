-- ===== src/UdpPacket/Roundtrip.antt =====
-- The packet codec of src/udp_packet.rs: what is created parses back, and what parses was created.
use rperf3_rs.Base.{
  ℕ, ◌-◌, ◌^◌, ◌<◌, ◌≤◌, ◌≡◌, refl, sym, ap, ap₂, ◌∙◌, List, ◌++◌, none, some, inl, inr, arith,
  length, drop, replicate, slice, All, IsByte, Option-cases, length-append, length-take,
  slice-append-drop, length-drop, u32_from_be-some, u64_from_be-some, lt→ltb, dec_lt, le→ltb-false,
  All-take, All-drop, resize_grow, ◌≢◌, ◌⊎◌, ◌↔◌, u32_to_be, u64_to_be, u32_from_be, u64_from_be,
  u32_to_be-u32_from_be, u64_to_be-u64_from_be,
}
use rperf3_rs.UdpPacket.{
  UdpPacketHeader, header_size, rperf3_udp_magic, header_new, to_bytes, read_fields, from_bytes,
  parse_packet, TimestampCache, Readings, get_timestamp, create_packet_fast,
}

-- Every field fits its width, and the marker is the program's.
pub record IsWire (h : UdpPacketHeader) : Type 0 where
  pub marked : h.magic ≡ rperf3_udp_magic
  pub stream_in : h.stream_id < 2 ^ 32
  pub sequence_in : h.sequence < 2 ^ 32
  pub timestamp_in : h.timestamp_us < 2 ^ 64

to_bytes-append :
    (h : UdpPacketHeader)
    → to_bytes h
      ≡ u32_to_be h.magic
        ++ (u32_to_be h.stream_id ++ (u32_to_be h.sequence ++ u64_to_be h.timestamp_us))
unfolding to_bytes
to_bytes-append h = refl

pub length-to_bytes : (h : UdpPacketHeader) → length (to_bytes h) ≡ 20
unfolding to_bytes
length-to_bytes h = refl

read_fields-to_bytes :
    (h : UdpPacketHeader) (rest : List ℕ) → IsWire h → read_fields (to_bytes h ++ rest) ≡ some h
unfolding read_fields to_bytes
read_fields-to_bytes h rest v = ground arith

drop_header : (h : UdpPacketHeader) (rest : List ℕ) → drop header_size (to_bytes h ++ rest) ≡ rest
unfolding to_bytes
drop_header h rest = refl

-- A packet of a header, followed by any payload, parses to the header and the payload.
pub parse_packet-to_bytes :
    (h : UdpPacketHeader) (payload : List ℕ)
    → IsWire h
    → parse_packet (to_bytes h ++ payload) ≡ some (h, payload)
unfolding parse_packet from_bytes
parse_packet-to_bytes h payload v = rw (
  le→ltb-false (length (to_bytes h ++ payload)) header_size
      (omega (arith, length-append (to_bytes h) payload, length-to_bytes h)),
  read_fields-to_bytes h payload v,
  drop_header h payload,
)

get_timestamp-lt : (c : TimestampCache) (r : Readings) → (get_timestamp c r).0 < 2 ^ 64
unfolding get_timestamp
get_timestamp-lt c r = ground arith

-- The created packet holds the header with its timestamp and as many zeros as asked for.
pub parse_packet-create_packet_fast :
    (c : TimestampCache) (r : Readings) (stream_id sequence payload_size : ℕ)
    → stream_id < 2 ^ 32
    → sequence < 2 ^ 32
    → parse_packet (create_packet_fast c r stream_id sequence payload_size).0
      ≡ some (header_new stream_id sequence (get_timestamp c r).0, replicate payload_size 0)
unfolding create_packet_fast header_new
parse_packet-create_packet_fast c r stream_id sequence payload_size hs hq =
    let h : UdpPacketHeader = header_new stream_id sequence (get_timestamp c r).0 in
    rw (resize_grow (to_bytes h) header_size payload_size 0 (length-to_bytes h)) (
      parse_packet-to_bytes h (replicate payload_size 0) (record {
        marked = refl;
        stream_in = hs;
        sequence_in = hq;
        timestamp_in = get_timestamp-lt c r;
      }))

module _ (bytes : List ℕ) (h : UdpPacketHeader) (e : read_fields bytes ≡ some h) where
  pub read_magic : (u32_from_be (slice bytes 0 4) ≡ some h.magic) × (h.magic ≡ rperf3_udp_magic)
  unfolding read_fields
  read_magic = ground arith

  read_stream_id : u32_from_be (slice bytes 4 8) ≡ some h.stream_id
  unfolding read_fields
  read_stream_id = ground arith

  read_sequence : u32_from_be (slice bytes 8 12) ≡ some h.sequence
  unfolding read_fields
  read_sequence = ground arith

  read_timestamp : u64_from_be (slice bytes 12 20) ≡ some h.timestamp_us
  unfolding read_fields
  read_timestamp = ground arith

-- the header's bytes, then the rest
sections :
    (bs : List ℕ)
    → slice bs 0 4 ++ (slice bs 4 8 ++ (slice bs 8 12 ++ (slice bs 12 20 ++ drop 20 bs))) ≡ bs
sections bs =
    ap (λ r. slice bs 0 4 ++ r)
      (ap (λ r. slice bs 4 8 ++ r)
          (ap (λ r. slice bs 8 12 ++ r) (slice-append-drop bs 12 20 (omega arith))
            ∙ slice-append-drop bs 8 12 (omega arith))
        ∙ slice-append-drop bs 4 8 (omega arith))
    ∙ slice-append-drop bs 0 4 (omega arith)

to_bytes-read_fields :
    (bytes : List ℕ) (h : UdpPacketHeader)
    → All IsByte bytes
    → read_fields bytes ≡ some h
    → to_bytes h ++ drop 20 bytes ≡ bytes
unfolding to_bytes
to_bytes-read_fields bytes h b e =
    ap₂ ◌++◌ (u32 0 4 h.magic (read_magic bytes h e).0) (
      ap₂ ◌++◌ (u32 4 8 h.stream_id (read_stream_id bytes h e))
        (ap₂ ◌++◌ (u32 8 12 h.sequence (read_sequence bytes h e)) (ap₂ ◌++◌ stamp refl)))
    ∙ sections bytes
  where
    part : (i j : ℕ) → All IsByte (slice bytes i j)
    part i j = All-take IsByte (j - i) (drop i bytes) (All-drop IsByte i bytes b)

    u32 : (i j x : ℕ) → u32_from_be (slice bytes i j) ≡ some x → u32_to_be x ≡ slice bytes i j
    u32 i j x q = u32_to_be-u32_from_be (slice bytes i j) x (part i j) q

    stamp : u64_to_be h.timestamp_us ≡ slice bytes 12 20
    stamp =
        u64_to_be-u64_from_be (slice bytes 12 20) h.timestamp_us (part 12 20)
          (read_timestamp bytes h e)

parse_parts :
    (packet : List ℕ) (h : UdpPacketHeader) (payload : List ℕ)
    → parse_packet packet ≡ some (h, payload)
    → (read_fields packet ≡ some h) × (drop 20 packet ≡ payload) × (20 ≤ length packet)
unfolding parse_packet from_bytes
parse_parts packet h payload e = ground arith

-- What parses is a marked packet: its bytes are those of the header, then the payload.
pub to_bytes-parse_packet :
    (packet : List ℕ) (h : UdpPacketHeader) (payload : List ℕ)
    → All IsByte packet
    → parse_packet packet ≡ some (h, payload)
    → (to_bytes h ++ payload ≡ packet) × (h.magic ≡ rperf3_udp_magic) × (20 ≤ length packet)
to_bytes-parse_packet packet h payload b e =
    let (q, d, l) = parse_parts packet h payload e in
    (rw (← d) (to_bytes-read_fields packet h b q), (read_magic packet h q).1, l)

length-slice :
    (packet : List ℕ) (i j : ℕ) → i ≤ j → j ≤ length packet → length (slice packet i j) ≡ j - i
length-slice packet i j h k =
    omega (arith, length-take (j - i) (drop i packet), length-drop i packet)

-- Enough bytes that begin with the marker parse.
parse_marked :
    (packet : List ℕ)
    → 20 ≤ length packet
    → slice packet 0 4 ≡ u32_to_be rperf3_udp_magic
    → parse_packet packet ≢ none
unfolding parse_packet from_bytes read_fields
parse_marked packet l m =
    let s =
      u32_from_be-some (slice packet 4 8) (length-slice packet 4 8 (omega arith) (omega arith)) in
    let q =
      u32_from_be-some (slice packet 8 12) (length-slice packet 8 12 (omega arith) (omega arith)) in
    let t =
      u64_from_be-some (slice packet 12 20)
        (length-slice packet 12 20 (omega arith) (omega arith)) in
    rw (le→ltb-false (length packet) header_size l, m, s.1, q.1, t.1) (λ e. cc e)

parse_short : (packet : List ℕ) → length packet < 20 → parse_packet packet ≡ none
unfolding parse_packet from_bytes
parse_short packet l = rw (lt→ltb (length packet) header_size l)

-- Others do not.
parse_unmarked :
    (packet : List ℕ)
    → All IsByte packet
    → slice packet 0 4 ≢ u32_to_be rperf3_udp_magic
    → parse_packet packet ≡ none
parse_unmarked packet b ne = elim (Option-cases (parse_packet packet)) [
  | inl e ↦ e
  | inr ((h, payload), e) ↦
      let m = read_magic packet h (parse_parts packet h payload e).0 in
      let first = All-take IsByte 4 packet b in
      absurd
        (ne (sym (u32_to_be-u32_from_be (slice packet 0 4) h.magic first m.0) ∙ ap u32_to_be m.1))
]

-- Bytes are refused exactly if they are too few or do not begin with the marker.
pub parse_packet-none :
    (packet : List ℕ)
    → All IsByte packet
    → (parse_packet packet ≡ none)
      ↔ ((length packet < 20) ⊎ (slice packet 0 4 ≢ u32_to_be rperf3_udp_magic))
parse_packet-none packet b = (refused, accepted)
  where
    refused :
        parse_packet packet ≡ none
        → (length packet < 20) ⊎ (slice packet 0 4 ≢ u32_to_be rperf3_udp_magic)
    refused e = elim (dec_lt (length packet) 20) [
      | yes l ↦ inl l
      | no nl ↦ inr (λ m. parse_marked packet (omega arith) m e)
    ]

    accepted :
        (length packet < 20) ⊎ (slice packet 0 4 ≢ u32_to_be rperf3_udp_magic)
        → parse_packet packet ≡ none
    accepted (inl l) = parse_short packet l
    accepted (inr ne) = parse_unmarked packet b ne
