-- ===== src/Batch/Recv/Buffers.antt =====
-- What the receiving batch of src/batch_socket.rs hands out on Linux, and the addresses.
use rperf3_rs.Base.{
  ℕ, ◌^◌, ◌≤◌, ◌<◌, ◌≡◌, List, [], ◌∷◌, map, Option, none, some, Bool, if◌then◌else◌, length, take,
  resize, arith, All,
}
use rperf3_rs.Batch.Recv.{
  SocketAddr, v4, Storage, inet, inet6, other_family, sockaddr_to_socketaddr, storage_of,
  UdpRecvBatch, Recvmmsg, got, no_data, other_error, max_packet,
}

-- The address that `send` gives to the kernel comes back from `recv` with its octets reversed.
pub sockaddr_to_socketaddr-storage_of :
    (a b c d port : ℕ)
    → a < 256
    → b < 256
    → c < 256
    → d < 256
    → port < 2 ^ 16
    → sockaddr_to_socketaddr (storage_of (v4 a b c d port)) ≡ some (v4 d c b a port)
unfolding sockaddr_to_socketaddr storage_of
sockaddr_to_socketaddr-storage_of a b c d port ha hb hc hd hp = ground arith

-- An address of the two families that the code knows.
abbrev pub IsInternet : List ℕ × Storage → Type 0
IsInternet (bytes, inet a p) = Unit
IsInternet (bytes, inet6 a p) = Unit
IsInternet (bytes, other_family) = ⊥

abbrev pub IsFull : List ℕ → Type 0
IsFull b = length b ≡ max_packet

abbrev pub cut : List ℕ × Storage → List ℕ
cut m = take max_packet m.0

-- Where a datagram came from.
abbrev pub from_of : List ℕ × Storage → Option SocketAddr
from_of m = sockaddr_to_socketaddr m.1

-- The datagrams that a call is to hand out, `none` for an error: those of the first recvmmsg, or if it
-- finds none those of the second, once the socket was waited for.
abbrev pub heard_of : Recvmmsg → Option (List (List ℕ × Storage))
heard_of (got ms) = some ms
heard_of no_data = none
heard_of other_error = none

abbrev pub heard : Recvmmsg → Bool → Recvmmsg → Option (List (List ℕ × Storage))
heard (got (m ∷ ms)) readable second = some (m ∷ ms)
heard (got []) readable second = if readable then heard_of second else none
heard no_data readable second = if readable then heard_of second else none
heard other_error readable second = none

-- No more datagrams than buffers, all of them from the families that the code knows.
abbrev pub Fits : UdpRecvBatch → Option (List (List ℕ × Storage)) → Type 0
Fits b none = Unit
Fits b (some ms) = (length ms ≤ length b.packets) × All IsInternet ms

-- The result and the batch have these datagrams and their senders, or are those of an error.
abbrev pub IsHandedOut :
    UdpRecvBatch → Option (List (List ℕ × Storage)) → Option ℕ × UdpRecvBatch → Type 0
IsHandedOut b none (r, d) = (r ≡ none) × (d.count ≡ b.count)
IsHandedOut b (some ms) (r, d) =
    (r ≡ some (length ms))
    × (d.count ≡ length ms)
    × (take d.count d.packets ≡ map cut ms)
    × (map some (take d.count d.addresses) ≡ map from_of ms)

module _ (b : UdpRecvBatch) (paired : length b.packets ≡ length b.addresses) where
  abbrev prepared : List (List ℕ)
  prepared = map (λ p. resize p max_packet 0) b.packets
