-- ===== src/Batch/Send.antt =====
-- `UdpSendBatch` of src/batch_socket.rs.
pub mod Order
use rperf3_rs.Base.{
  ℕ, suc, List, [], ◌∷◌, ◌++◌, Option, none, some, Bool, true, false, if◌then◌else◌, leb, ◌==◌,
  length, drop, add64,
}

abbrev pub max_batch_size : ℕ
max_batch_size = 64

pub record UdpSendBatch (A : Type 0) : Type 0 where
  pub packets : List (List ℕ)
  pub addresses : List A

-- `io::Result<(usize, usize)>`: the bytes and the packets sent
pub data SendResult : Type 0 where
  sent_ok : ℕ → ℕ → SendResult
  send_failed : SendResult

-- What sendmmsg returns: the lengths of the packets that it took, or an error.
pub data Sendmmsg : Type 0 where
  took : List ℕ → Sendmmsg
  would_block other_error : Sendmmsg

-- What `send_to` returns for a packet.
pub data SendTo : Type 0 where
  sent : ℕ → SendTo
  blocked failed : SendTo

-- `.map(|msg| msg.msg_len as usize).sum()`
abbrev pub sum64 : List ℕ → ℕ
sum64 [] = 0
sum64 (n ∷ ns) = add64 n (sum64 ns)

-- `send_mmsg_sync`: what the call's result becomes
unfoldable pub send_mmsg_sync : Sendmmsg → SendResult
send_mmsg_sync (took lengths) = sent_ok (sum64 lengths) (length lengths)
send_mmsg_sync would_block = sent_ok 0 0
send_mmsg_sync other_error = send_failed

-- The loop over the packets outside Linux, by the results of `send_to`; `none` is the early return
-- with an error.
unfoldable pub send_each : List (List ℕ) → List SendTo → ℕ → ℕ → Option (ℕ × ℕ)
send_each [] rs bytes sent_count = some (bytes, sent_count)
send_each (p ∷ ps) [] bytes sent_count = some (bytes, sent_count)
send_each (p ∷ ps) (sent n ∷ rs) bytes sent_count = send_each ps rs (add64 bytes n) (suc sent_count)
send_each (p ∷ ps) (blocked ∷ rs) bytes sent_count = some (bytes, sent_count)
send_each (p ∷ ps) (failed ∷ rs) bytes sent_count = none

module _ {A : Type 0} where
  -- `UdpSendBatch::new`, and `with_capacity`, which differs in reserved memory only
  unfoldable pub send_batch_new : UdpSendBatch A
  send_batch_new = record { packets = []; addresses = [] }

  unfoldable pub add : UdpSendBatch A → List ℕ → A → Bool × UdpSendBatch A
  add b packet addr = if leb max_batch_size (length b.packets) then (false, b) else (
    true,
    record { packets = b.packets ++ (packet ∷ []); addresses = b.addresses ++ (addr ∷ []) },
  )

  unfoldable pub send_batch_len : UdpSendBatch A → ℕ
  send_batch_len b = length b.packets

  unfoldable pub send_batch_is_empty : UdpSendBatch A → Bool
  send_batch_is_empty b = length b.packets == 0

  unfoldable pub is_full : UdpSendBatch A → Bool
  is_full b = leb max_batch_size (length b.packets)

  unfoldable pub clear : UdpSendBatch A → UdpSendBatch A
  clear b = record { packets = []; addresses = [] }

  -- `drain(..n)` of both vectors
  unfoldable pub drain : ℕ → UdpSendBatch A → UdpSendBatch A
  drain n b = record { packets = drop n b.packets; addresses = drop n b.addresses }

  unfoldable pub drain_sent : SendResult → UdpSendBatch A → UdpSendBatch A
  drain_sent (sent_ok bytes n) b = drain n b
  drain_sent send_failed b = b

  -- `send` on Linux
  unfoldable pub send_mmsg : UdpSendBatch A → Sendmmsg → SendResult × UdpSendBatch A
  send_mmsg b r =
      if send_batch_is_empty b
      then (sent_ok 0 0, b)
      else (send_mmsg_sync r, drain_sent (send_mmsg_sync r) b)

  -- `send` elsewhere: an error drains nothing
  unfoldable pub send_others : UdpSendBatch A → List SendTo → SendResult × UdpSendBatch A
  send_others b rs =
      if send_batch_is_empty b then (sent_ok 0 0, b) else elim (send_each b.packets rs 0 0) [
        | none ↦ (send_failed, b)
        | some (bytes, n) ↦ (sent_ok bytes n, drain n b)
      ]
