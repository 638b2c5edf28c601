-- ===== src/Batch/Recv.antt =====
-- `UdpRecvBatch` of src/batch_socket.rs and the addresses of what is received. A buffer is the list of
-- its bytes; a received packet cuts its buffer. The machine is little-endian.
pub mod Buffers
pub mod Portable
use rperf3_rs.Base.{
  ℕ, zero, suc, ◌+◌, ◌-◌, ◌*◌, ◌/◌, ◌%◌, ◌^◌, ◌≤◌, ◌<◌, ◌≡◌, refl, ap, ap₂, List, [], ◌∷◌, ◌++◌,
  map, Option, none, some, Bool, true, false, if◌then◌else◌, ltb, ◌==◌, length, take, replicate,
  resize, arith, min, length-append, length-take, length-replicate, get_elem?,
}

abbrev pub max_packet : ℕ
max_packet = 65536

-- `std::net::SocketAddr`: four octets or sixteen, and the port
pub data SocketAddr : Type 0 where
  v4 : ℕ → ℕ → ℕ → ℕ → ℕ → SocketAddr
  v6 : List ℕ → ℕ → SocketAddr

-- `sockaddr_storage`: the fields of sockaddr_in, of sockaddr_in6, or another family
pub data Storage : Type 0 where
  inet : (s_addr : ℕ) → (sin_port : ℕ) → Storage
  inet6 : (s6_addr : List ℕ) → (sin6_port : ℕ) → Storage
  other_family : Storage

-- `u32::from_be` and `u16::from_be`
abbrev pub swap32 : ℕ → ℕ
swap32 x = x % 256 * 2 ^ 24 + x / 2 ^ 8 % 256 * 2 ^ 16 + x / 2 ^ 16 % 256 * 2 ^ 8 + x / 2 ^ 24 % 256

abbrev pub swap16 : ℕ → ℕ
swap16 x = x % 256 * 2 ^ 8 + x / 2 ^ 8 % 256

-- `Ipv4Addr::from(x.to_ne_bytes())`, and a port
abbrev pub v4_of_ne_bytes : ℕ → ℕ → SocketAddr
v4_of_ne_bytes x port = v4 (x % 256) (x / 2 ^ 8 % 256) (x / 2 ^ 16 % 256) (x / 2 ^ 24 % 256) port

-- `sockaddr_to_socketaddr`
unfoldable pub sockaddr_to_socketaddr : Storage → Option SocketAddr
sockaddr_to_socketaddr (inet s_addr sin_port) =
    some (v4_of_ne_bytes (swap32 s_addr) (swap16 sin_port))
sockaddr_to_socketaddr (inet6 s6_addr sin6_port) = some (v6 s6_addr (swap16 sin6_port))
sockaddr_to_socketaddr other_family = none

-- `send_mmsg_sync`: the sockaddr of an address, the octets in their order in memory
unfoldable pub storage_of : SocketAddr → Storage
storage_of (v4 a b c d port) = inet (a + b * 2 ^ 8 + c * 2 ^ 16 + d * 2 ^ 24) (swap16 port)
storage_of (v6 octets port) = inet6 octets (swap16 port)

pub record UdpRecvBatch : Type 0 where
  pub packets : List (List ℕ)
  pub addresses : List SocketAddr
  pub count : ℕ

-- What a receive call of the portable code finds.
pub data Datagram : Type 0 where
  datagram : List ℕ → SocketAddr → Datagram
  would_block failed : Datagram

-- What recvmmsg finds: the datagrams with their senders, or an error.
pub data Recvmmsg : Type 0 where
  got : List (List ℕ × Storage) → Recvmmsg
  no_data other_error : Recvmmsg

-- A buffer that received a datagram and was truncated: what of it fits.
abbrev pub received_into : List ℕ → List ℕ → List ℕ
received_into buffer bytes = take (length buffer) bytes

-- `UdpRecvBatch::new`
unfoldable pub recv_batch_new : UdpRecvBatch
recv_batch_new = record {
  packets = replicate 64 (replicate max_packet 0);
  addresses = replicate 64 (v4 0 0 0 0 0);
  count = 0;
}

-- The buffers and addresses, how many were received, and whether there was no error.
pub record Filled : Type 0 where
  pub packets : List (List ℕ)
  pub addresses : List SocketAddr
  pub count : ℕ
  pub is_ok : Bool

abbrev pub one_more : List ℕ → SocketAddr → Filled → Filled
one_more packet addr f = record {
  packets = packet ∷ f.packets;
  addresses = addr ∷ f.addresses;
  count = suc f.count;
  is_ok = f.is_ok;
}

-- The loop of `try_recv_from` in the portable `recv`.
unfoldable pub try_recv_each : List (List ℕ) → List SocketAddr → List Datagram → Filled
try_recv_each (b ∷ bs) (a ∷ addrs) (datagram bytes from ∷ rs) =
    one_more (received_into b bytes) from (try_recv_each bs addrs rs)
try_recv_each bs addrs (failed ∷ rs) = record {
  packets = bs;
  addresses = addrs;
  count = 0;
  is_ok = false;
}
try_recv_each bs addrs rs = record { packets = bs; addresses = addrs; count = 0; is_ok = true }

-- `recv_from(..).await` into the first buffer.
unfoldable pub recv_first : List (List ℕ) → List SocketAddr → Datagram → Filled
recv_first (b ∷ bs) (a ∷ addrs) (datagram bytes from) = record {
  packets = received_into b bytes ∷ bs;
  addresses = from ∷ addrs;
  count = 1;
  is_ok = true;
}
recv_first bs addrs r = record { packets = bs; addresses = addrs; count = 0; is_ok = false }

abbrev pub batch_of : Filled → UdpRecvBatch
batch_of f = record { packets = f.packets; addresses = f.addresses; count = f.count }

-- The portable `recv`: `none` is an error
unfoldable pub recv_portable : UdpRecvBatch → List Datagram → Datagram → Option ℕ × UdpRecvBatch
recv_portable b rs blocking =
    let f = try_recv_each b.packets b.addresses rs in
    let g = recv_first f.packets f.addresses blocking in
    if f.is_ok
    then (if f.count == 0
        then ((if g.is_ok then some 1 else none), batch_of g)
        else (some f.count, batch_of f))
    else (none, batch_of f)

-- `recv_mmsg_sync`: the loop over what recvmmsg received
unfoldable pub fill_each : List (List ℕ) → List SocketAddr → List (List ℕ × Storage) → Filled
fill_each (b ∷ bs) (a ∷ addrs) ((bytes, storage) ∷ ms) =
    let rest = fill_each bs addrs ms in
    elim (sockaddr_to_socketaddr storage) [
      | none ↦ record {
        packets = received_into b bytes ∷ bs;
        addresses = a ∷ addrs;
        count = 0;
        is_ok = false;
      }
      | some addr ↦ one_more (received_into b bytes) addr rest
    ]
fill_each bs addrs ms = record { packets = bs; addresses = addrs; count = 0; is_ok = true }

-- `self.count = count`, or an error, which leaves the count
unfoldable pub finish : UdpRecvBatch → Filled → Option ℕ × UdpRecvBatch
finish b f =
    if f.is_ok
    then (some f.count, batch_of f)
    else (none, record { packets = f.packets; addresses = f.addresses; count = b.count })

-- What a call of recvmmsg does to prepared buffers; any error leaves them.
unfoldable pub recv_mmsg_sync : UdpRecvBatch → List (List ℕ) → Recvmmsg → Option ℕ × UdpRecvBatch
recv_mmsg_sync b buffers (got ms) = finish b (fill_each buffers b.addresses ms)
recv_mmsg_sync b buffers no_data = (none, record b { packets = buffers })
recv_mmsg_sync b buffers other_error = (none, record b { packets = buffers })

-- `recv_mmsg`: the first call, whether waiting for the socket succeeds, and the second call
unfoldable pub recv_mmsg : UdpRecvBatch → Recvmmsg → Bool → Recvmmsg → Option ℕ × UdpRecvBatch
recv_mmsg b first readable second = go first
  where
    buffers : List (List ℕ)
    buffers = map (λ p. resize p max_packet 0) b.packets

    again : Option ℕ × UdpRecvBatch
    again =
        if readable then recv_mmsg_sync b buffers second else (none, record b { packets = buffers })

    go : Recvmmsg → Option ℕ × UdpRecvBatch
    go (got []) = again
    go (got (m ∷ ms)) = recv_mmsg_sync b buffers (got (m ∷ ms))
    go no_data = again
    go other_error = recv_mmsg_sync b buffers other_error

-- `get`
unfoldable pub recv_batch_get : UdpRecvBatch → ℕ → Option (List ℕ)
recv_batch_get b index = if ltb index b.count then get_elem? b.packets index else none
