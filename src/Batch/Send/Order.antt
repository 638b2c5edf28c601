-- ===== src/Batch/Send/Order.antt =====
-- `UdpSendBatch` of src/batch_socket.rs: packets leave in the order in which they came, each for the
-- address that it came with.
use rperf3_rs.Base.{
  ℕ, zero, suc, ◌≤◌, ◌<◌, ◌≡◌, refl, sym, ap, ◌∙◌, List, [], ◌∷◌, ◌++◌, if◌then◌else◌, leb, length,
  take, drop, arith, append_assoc, take-append-drop, length-append, length-drop, Bool-cases, inl,
  inr,
}
use rperf3_rs.Batch.Send.{
  UdpSendBatch, SendResult, sent_ok, send_failed, Sendmmsg, send_mmsg, send_mmsg_sync,
  send_batch_is_empty, drain_sent, drain, add, max_batch_size,
}

-- What a client does with a batch: it adds packets and sends what the kernel takes.
pub data BatchOp (A : Type 0) : Type 0 where
  add_op : List ℕ → A → BatchOp A
  send_op : Sendmmsg → BatchOp A

-- The packets with their addresses: those that were accepted, those that left, in order, and the batch.
pub record History (A : Type 0) : Type 0 where
  pub accepted : List (List ℕ × A)
  pub left : List (List ℕ × A)
  pub batch : UdpSendBatch A

abbrev pub count_of : SendResult → ℕ
count_of (sent_ok bytes n) = n
count_of send_failed = 0

module _ {A : Type 0} where
  -- The two vectors of a batch, position by position, as sendmmsg takes them.
  abbrev pub pairs : List (List ℕ) → List A → List (List ℕ × A)
  pairs [] addrs = []
  pairs (p ∷ ps) [] = []
  pairs (p ∷ ps) (a ∷ addrs) = (p, a) ∷ pairs ps addrs

  pairs-append :
      (ps : List (List ℕ)) (addrs : List A) (p : List ℕ) (a : A)
      → length ps ≡ length addrs
      → pairs (ps ++ (p ∷ [])) (addrs ++ (a ∷ [])) ≡ pairs ps addrs ++ ((p, a) ∷ [])
  pairs-append [] [] p a e = refl
  pairs-append [] (b ∷ addrs) p a e = absurd (omega arith)
  pairs-append (q ∷ ps) [] p a e = absurd (omega arith)
  pairs-append (q ∷ ps) (b ∷ addrs) p a e =
      ap (λ rest. (q, b) ∷ rest) (pairs-append ps addrs p a (omega arith))

  pairs-drop :
      (n : ℕ) (ps : List (List ℕ)) (addrs : List A)
      → pairs (drop n ps) (drop n addrs) ≡ drop n (pairs ps addrs)
  pairs-drop zero ps addrs = refl
  pairs-drop (suc n) [] addrs = refl
  pairs-drop (suc n) (p ∷ ps) [] = nothing (drop n ps)
    where
      nothing : (qs : List (List ℕ)) → pairs qs [] ≡ []
      nothing [] = refl
      nothing (q ∷ qs) = refl
  pairs-drop (suc n) (p ∷ ps) (a ∷ addrs) = pairs-drop n ps addrs

  -- Every packet has its address, and there are no more than the batch holds.
  pub record IsBatch (b : UdpSendBatch A) : Type 0 where
    pub paired : length b.packets ≡ length b.addresses
    pub bounded : length b.packets ≤ max_batch_size

  unfoldable pub perform : History A → BatchOp A → History A
  perform h (add_op packet addr) = record {
    accepted =
        if (add h.batch packet addr).0 then h.accepted ++ ((packet, addr) ∷ []) else h.accepted;
    left = h.left;
    batch = (add h.batch packet addr).1;
  }
  perform h (send_op r) = record {
    accepted = h.accepted;
    left =
        h.left ++ take (count_of (send_mmsg h.batch r).0) (pairs h.batch.packets h.batch.addresses);
    batch = (send_mmsg h.batch r).1;
  }

  unfoldable pub perform_all : History A → List (BatchOp A) → History A
  perform_all h [] = h
  perform_all h (op ∷ ops) = perform_all (perform h op) ops

  -- What was accepted is what left, and then what waits, in order and with its addresses.
  pub record IsFifo (h : History A) : Type 0 where
    pub in_order : h.accepted ≡ h.left ++ pairs h.batch.packets h.batch.addresses
    pub is_batch : IsBatch h.batch

  drain_sent-count_of :
      (r : SendResult) (b : UdpSendBatch A) → drain_sent r b ≡ drain (count_of r) b
  unfolding drain_sent drain
  drain_sent-count_of (sent_ok bytes n) b = refl
  drain_sent-count_of send_failed b = refl

  pub send_mmsg-drain :
      (b : UdpSendBatch A) (r : Sendmmsg) → (send_mmsg b r).1 ≡ drain (count_of (send_mmsg b r).0) b
  unfolding send_mmsg drain drain_sent
  send_mmsg-drain b r = elim (Bool-cases (send_batch_is_empty b)) [
    | inl e ↦ rw e (sym (drain_sent-count_of (sent_ok 0 0) b))
    | inr e ↦ rw e (drain_sent-count_of (send_mmsg_sync r) b)
  ]

  drain-IsBatch : (n : ℕ) (b : UdpSendBatch A) → IsBatch b → IsBatch (drain n b)
  unfolding drain
  drain-IsBatch n b v = record {
    paired = omega (arith, length-drop n b.packets, length-drop n b.addresses, v.paired);
    bounded = omega (arith, length-drop n b.packets, v.bounded);
  }

  drain-IsFifo :
      (h : History A) (n : ℕ)
      → IsFifo h
      → IsFifo (record {
        accepted = h.accepted;
        left = h.left ++ take n (pairs h.batch.packets h.batch.addresses);
        batch = drain n h.batch;
      })
  unfolding drain
  drain-IsFifo h n v =
      let waiting = pairs h.batch.packets h.batch.addresses in
      record {
        in_order =
            v.in_order
            ∙ ap (λ ps. h.left ++ ps) (sym (take-append-drop n waiting))
            ∙ sym (append_assoc h.left (take n waiting) (drop n waiting))
            ∙ ap (λ ps. (h.left ++ take n waiting) ++ ps)
                (sym (pairs-drop n h.batch.packets h.batch.addresses));
        is_batch = drain-IsBatch n h.batch v.is_batch;
      }

  perform-IsFifo : (h : History A) (op : BatchOp A) → IsFifo h → IsFifo (perform h op)
  unfolding perform add
  perform-IsFifo h (add_op packet addr) v =
      elim (Bool-cases (leb max_batch_size (length h.batch.packets))) [
        | inl e ↦ rw e (record { in_order = v.in_order; is_batch = v.is_batch })
        | inr e ↦
            let l = length-append h.batch.packets (packet ∷ []) in
            let k = length-append h.batch.addresses (addr ∷ []) in
            let room : length h.batch.packets < max_batch_size = ground arith in
            let waiting = pairs h.batch.packets h.batch.addresses in
            rw e (record {
              in_order =
                  ap (λ ps. ps ++ ((packet, addr) ∷ [])) v.in_order
                  ∙ append_assoc h.left waiting ((packet, addr) ∷ [])
                  ∙ ap (λ ps. h.left ++ ps)
                      (sym (
                        pairs-append h.batch.packets h.batch.addresses packet addr
                          v.is_batch.paired));
              is_batch = record {
                paired = omega (arith, l, k, v.is_batch.paired);
                bounded = omega (arith, l, room);
              };
            })
      ]
  perform-IsFifo h (send_op r) v =
      rw (send_mmsg-drain h.batch r) (drain-IsFifo h (count_of (send_mmsg h.batch r).0) v)

  -- Whatever is added and whatever the kernel answers, the packets that were accepted, each with its
  -- address, are those that left and then those that wait, in order: none is lost, repeated,
  -- overtaken or sent to another's address, and no more than 64 wait; if this held at the start.
  pub perform_all-IsFifo :
      (h : History A) (ops : List (BatchOp A)) → IsFifo h → IsFifo (perform_all h ops)
  unfolding perform_all
  perform_all-IsFifo h [] v = v
  perform_all-IsFifo h (op ∷ ops) v = perform_all-IsFifo (perform h op) ops (perform-IsFifo h op v)
