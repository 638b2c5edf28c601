-- ===== src/UdpPacket/Tests.antt =====
-- Runs of the packet codec, and its theorems at concrete inputs.
use rperf3_rs.Base.{
  ℕ, ◌<◌, ◌≤◌, ◌≡◌, refl, ◌≢◌, ◌↔◌, ◌⊎◌, List, [], ◌∷◌, ◌++◌, some, none, length, slice, replicate,
  u32_to_be, arith,
}
use rperf3_rs.UdpPacket.{
  TimestampCache, Readings, UdpPacketHeader, rperf3_udp_magic, header_new, to_bytes, create_packet,
  create_packet_fast, cache_new, get_timestamp, parse_packet,
}
use rperf3_rs.UdpPacket.Roundtrip.{
  parse_packet-to_bytes, parse_packet-create_packet_fast, to_bytes-parse_packet, parse_packet-none,
}
use rperf3_rs.UdpPacket
use rperf3_rs.UdpPacket.Timestamp.{stamps, AreExtrapolated, stamps-AreExtrapolated}

abbrev sample : UdpPacketHeader
sample = record {
  magic = rperf3_udp_magic;
  stream_id = 1;
  sequence = 100;
  timestamp_us = 9876543210;
}

abbrev sample_bytes : List ℕ
sample_bytes =
    0x52 ∷ 0x50 ∷ 0x46 ∷ 0x33 ∷ 0 ∷ 0 ∷ 0 ∷ 1 ∷ 0 ∷ 0 ∷ 0 ∷ 100 ∷ 0 ∷ 0 ∷ 0 ∷ 2 ∷ 0x4c ∷ 0xb0 ∷ 0x16
    ∷ 0xea ∷ []

to_bytes_runs : to_bytes sample ≡ sample_bytes
unfolding to_bytes
to_bytes_runs = refl

create_packet_runs : create_packet 9876543210 1 100 2 ≡ sample_bytes ++ (0 ∷ 0 ∷ [])
unfolding create_packet to_bytes
create_packet_runs = refl

abbrev cache : TimestampCache
cache = record { cached_timestamp_us = 5000; last_update = 2000000; update_interval_us = 1000 }

abbrev readings : Readings
readings = record { elapsed_at = 2500000; wall_us = 5501; updated_at = 2502000 }

cached_runs : (get_timestamp cache readings).0 ≡ 5500
unfolding get_timestamp
cached_runs = refl

parse_packet-to_bytes_example :
    parse_packet (to_bytes sample ++ (7 ∷ 8 ∷ [])) ≡ some (sample, 7 ∷ 8 ∷ [])
parse_packet-to_bytes_example = parse_packet-to_bytes sample (7 ∷ 8 ∷ []) (omega arith)

parse_packet-create_packet_fast_example :
    parse_packet (create_packet_fast cache readings 3 42 2).0
    ≡ some (header_new 3 42 (get_timestamp cache readings).0, replicate 2 0)
parse_packet-create_packet_fast_example =
    parse_packet-create_packet_fast cache readings 3 42 2 (omega arith) (omega arith)

parsed_sample : parse_packet (sample_bytes ++ (9 ∷ [])) ≡ some (sample, 9 ∷ [])
unfolding parse_packet UdpPacket.from_bytes UdpPacket.read_fields
parsed_sample = refl

to_bytes-parse_packet_example :
    (to_bytes sample ++ (9 ∷ []) ≡ sample_bytes ++ (9 ∷ []))
    × (sample.magic ≡ rperf3_udp_magic)
    × (20 ≤ length (sample_bytes ++ (9 ∷ [])))
to_bytes-parse_packet_example =
    to_bytes-parse_packet (sample_bytes ++ (9 ∷ [])) sample (9 ∷ []) (omega arith) parsed_sample

parse_packet-none_example :
    (parse_packet (0xff ∷ 1 ∷ []) ≡ none)
    ↔ ((2 < 20) ⊎ (slice (0xff ∷ 1 ∷ []) 0 4 ≢ u32_to_be rperf3_udp_magic))
parse_packet-none_example = parse_packet-none (0xff ∷ 1 ∷ []) (omega arith)

-- A cache made at 1 ms, a call that the cache answers, and, after the system clock stepped back, one
-- that refreshes it.
abbrev made : Readings
made = record { elapsed_at = 1000000; wall_us = 5000; updated_at = 1000500 }

abbrev stepped_back : Readings
stepped_back = record { elapsed_at = 2500000; wall_us = 3000; updated_at = 2502000 }

abbrev calls : List Readings
calls = record { elapsed_at = 1500500; wall_us = 9999; updated_at = 1502000 } ∷ stepped_back ∷ []

stamps_runs : stamps (cache_new made) calls ≡ 5500 ∷ 3000 ∷ []
unfolding stamps cache_new get_timestamp
stamps_runs = refl

stamps-AreExtrapolated_example : AreExtrapolated (made ∷ []) calls (stamps (cache_new made) calls)
stamps-AreExtrapolated_example =
    stamps-AreExtrapolated made calls ((omega arith, omega arith), ((omega arith, omega arith), tt))
