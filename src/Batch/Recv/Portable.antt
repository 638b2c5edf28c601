-- ===== src/Batch/Recv/Portable.antt =====
-- What becomes of the buffers of the receiving batch of src/batch_socket.rs outside Linux.
use rperf3_rs.Base.{
  ℕ, suc, ◌≤◌, ◌≡◌, refl, ap, List, [], ◌∷◌, ◌++◌, map, some, true, false, Bool-cases, inl, inr,
  subst, length, take, arith, length-take, ◌==◌,
}
use rperf3_rs.Batch.Recv.{
  SocketAddr, UdpRecvBatch, Datagram, datagram, would_block, failed, try_recv_each, recv_first,
  recv_portable,
}

-- Each buffer is at most as long as it was.
abbrev IsShrunk : List (List ℕ) → List (List ℕ) → Type 0
IsShrunk [] [] = Unit
IsShrunk (b ∷ bs) (c ∷ cs) = (length c ≤ length b) × IsShrunk bs cs
IsShrunk _ _ = ⊥

IsShrunk-refl : (bs : List (List ℕ)) → IsShrunk bs bs
IsShrunk-refl [] = tt
IsShrunk-refl (b ∷ bs) = (omega arith, IsShrunk-refl bs)

IsShrunk-trans : (xs bs cs : List (List ℕ)) → IsShrunk xs bs → IsShrunk bs cs → IsShrunk xs cs
IsShrunk-trans [] [] [] h k = tt
IsShrunk-trans [] [] (c ∷ cs) h k = elim k [ ]
IsShrunk-trans [] (b ∷ bs) cs h k = elim h [ ]
IsShrunk-trans (a ∷ xs) [] cs h k = elim h [ ]
IsShrunk-trans (a ∷ xs) (b ∷ bs) [] h k = elim k [ ]
IsShrunk-trans (a ∷ xs) (b ∷ bs) (c ∷ cs) h k =
    (omega (arith, h.0, k.0), IsShrunk-trans xs bs cs h.1 k.1)

try_recv_each-IsShrunk :
    (bs : List (List ℕ)) (addrs : List SocketAddr) (rs : List Datagram)
    → IsShrunk bs (try_recv_each bs addrs rs).packets
unfolding try_recv_each
try_recv_each-IsShrunk (b ∷ bs) (a ∷ addrs) (datagram bytes from ∷ rs) =
    (omega (arith, length-take (length b) bytes), try_recv_each-IsShrunk bs addrs rs)
try_recv_each-IsShrunk [] addrs [] = tt
try_recv_each-IsShrunk [] addrs (datagram bytes from ∷ rs) = tt
try_recv_each-IsShrunk [] addrs (would_block ∷ rs) = tt
try_recv_each-IsShrunk [] addrs (failed ∷ rs) = tt
try_recv_each-IsShrunk (b ∷ bs) [] [] = IsShrunk-refl (b ∷ bs)
try_recv_each-IsShrunk (b ∷ bs) [] (datagram bytes from ∷ rs) = IsShrunk-refl (b ∷ bs)
try_recv_each-IsShrunk (b ∷ bs) [] (would_block ∷ rs) = IsShrunk-refl (b ∷ bs)
try_recv_each-IsShrunk (b ∷ bs) [] (failed ∷ rs) = IsShrunk-refl (b ∷ bs)
try_recv_each-IsShrunk bs addrs rs = IsShrunk-refl bs

recv_first-IsShrunk :
    (bs : List (List ℕ)) (addrs : List SocketAddr) (r : Datagram)
    → IsShrunk bs (recv_first bs addrs r).packets
unfolding recv_first
recv_first-IsShrunk (b ∷ bs) (a ∷ addrs) (datagram bytes from) =
    (omega (arith, length-take (length b) bytes), IsShrunk-refl bs)
recv_first-IsShrunk bs addrs r = IsShrunk-refl bs

recv_portable-IsShrunk :
    (b : UdpRecvBatch) (rs : List Datagram) (blocking : Datagram)
    → IsShrunk b.packets (recv_portable b rs blocking).1.packets
unfolding recv_portable
recv_portable-IsShrunk b rs blocking =
    let f = try_recv_each b.packets b.addresses rs in
    let s = try_recv_each-IsShrunk b.packets b.addresses rs in
    let t =
      IsShrunk-trans b.packets f.packets (recv_first f.packets f.addresses blocking).packets s
        (recv_first-IsShrunk f.packets f.addresses blocking) in
    elim (Bool-cases f.is_ok) [
      | inr e ↦ rw e s
      | inl e ↦ elim (Bool-cases (f.count == 0)) [ inl z ↦ rw (e, z) t | inr z ↦ rw (e, z) s ]
    ]

-- Calls one after another: what the sockets give to each.
abbrev pub recv_all : UdpRecvBatch → List (List Datagram × Datagram) → UdpRecvBatch
recv_all b [] = b
recv_all b ((rs, blocking) ∷ calls) = recv_all (recv_portable b rs blocking).1 calls

recv_all-IsShrunk :
    (b : UdpRecvBatch) (calls : List (List Datagram × Datagram))
    → IsShrunk b.packets (recv_all b calls).packets
recv_all-IsShrunk b [] = IsShrunk-refl b.packets
recv_all-IsShrunk b ((rs, blocking) ∷ calls) =
    let c = (recv_portable b rs blocking).1 in
    IsShrunk-trans b.packets c.packets (recv_all c calls).packets
      (recv_portable-IsShrunk b rs blocking) (recv_all-IsShrunk c calls)

abbrev pub arrives : List ℕ × SocketAddr → Datagram
arrives (bytes, from) = datagram bytes from

-- The datagrams that a call receives: those that wait, or the one that it waits for.
abbrev pub received : List (List ℕ × SocketAddr) → List ℕ × SocketAddr → List (List ℕ × SocketAddr)
received [] d = d ∷ []
received (e ∷ ds) d = e ∷ ds

-- Each datagram, cut to its buffer; the buffers after them are as they were.
abbrev pub cut_to : List (List ℕ) → List (List ℕ × SocketAddr) → List (List ℕ)
cut_to bs [] = bs
cut_to [] (d ∷ ds) = []
cut_to (b ∷ bs) (d ∷ ds) = take (length b) d.0 ∷ cut_to bs ds

-- No buffer is longer than the datagram that it received.
abbrev pub IsCapped : List (List ℕ × SocketAddr) → List (List ℕ) → Type 0
IsCapped [] bs = Unit
IsCapped (d ∷ ds) [] = ⊥
IsCapped (d ∷ ds) (b ∷ bs) = (length b ≤ length d.0) × IsCapped ds bs

IsCapped-cut_to :
    (bs cs : List (List ℕ)) (ds : List (List ℕ × SocketAddr))
    → length ds ≤ length bs
    → IsShrunk (cut_to bs ds) cs
    → IsCapped ds cs
IsCapped-cut_to bs cs [] h s = tt
IsCapped-cut_to [] cs (d ∷ ds) h s = absurd (omega arith)
IsCapped-cut_to (b ∷ bs) [] (d ∷ ds) h s = elim s [ ]
IsCapped-cut_to (b ∷ bs) (c ∷ cs) (d ∷ ds) h s =
    (omega (arith, s.0, length-take (length b) d.0), IsCapped-cut_to bs cs ds (omega arith) s.1)

try_recv_each-eq :
    (bs : List (List ℕ)) (addrs : List SocketAddr) (ds : List (List ℕ × SocketAddr))
    (rs : List Datagram)
    → length bs ≡ length addrs
    → length ds ≤ length bs
    → let f = try_recv_each bs addrs (map arrives ds ++ (would_block ∷ rs)) in
      (f.packets ≡ cut_to bs ds) × (f.count ≡ length ds) × (f.is_ok ≡ true)
unfolding try_recv_each
try_recv_each-eq [] addrs [] rs e l = (refl, refl, refl)
try_recv_each-eq (b ∷ bs) [] [] rs e l = absurd (omega arith)
try_recv_each-eq (b ∷ bs) (a ∷ addrs) [] rs e l = (refl, refl, refl)
try_recv_each-eq [] addrs (d ∷ ds) rs e l = absurd (omega arith)
try_recv_each-eq (b ∷ bs) [] (d ∷ ds) rs e l = absurd (omega arith)
try_recv_each-eq (b ∷ bs) (a ∷ addrs) (d ∷ ds) rs e l =
    let (x, y, z) = try_recv_each-eq bs addrs ds rs (omega arith) (omega arith) in
    (ap (λ ps. take (length b) d.0 ∷ ps) x, ap suc y, z)

-- Where nothing waits, the first buffer takes the datagram that is waited for.
recv_first-eq :
    (bs : List (List ℕ)) (addrs : List SocketAddr) (d : List ℕ × SocketAddr) (rs : List Datagram)
    → length bs ≡ length addrs
    → 1 ≤ length bs
    → let f = try_recv_each bs addrs (would_block ∷ rs) in
      let g = recv_first f.packets f.addresses (arrives d) in
      (f.is_ok ≡ true) × (f.count ≡ 0) × (g.is_ok ≡ true) × (g.packets ≡ cut_to bs (d ∷ []))
unfolding try_recv_each recv_first
recv_first-eq [] addrs d rs e l = absurd (omega arith)
recv_first-eq (b ∷ bs) [] d rs e l = absurd (omega arith)
recv_first-eq (b ∷ bs) (a ∷ addrs) d rs e l = (refl, refl, refl, refl)

module _ (b : UdpRecvBatch) (paired : length b.packets ≡ length b.addresses) where
  -- What a call gives and leaves.
  recv_portable-eq :
      (ds : List (List ℕ × SocketAddr)) (d : List ℕ × SocketAddr) (rs : List Datagram)
      → length (received ds d) ≤ length b.packets
      → let (r, c) = recv_portable b (map arrives ds ++ (would_block ∷ rs)) (arrives d) in
        (r ≡ some (length (received ds d))) × (c.packets ≡ cut_to b.packets (received ds d))
  unfolding recv_portable
  recv_portable-eq [] d rs l =
      let (x, y, z, w) = recv_first-eq b.packets b.addresses d rs paired l in rw (x, y, z) (refl, w)
  recv_portable-eq (e ∷ ds) d rs l =
      let (x, y, z) = try_recv_each-eq b.packets b.addresses (e ∷ ds) rs paired l in
      let n : (length (e ∷ ds) == 0) ≡ false = ground arith in rw (z, y, n) (refl, x)

  -- Outside Linux a call whose receives do not fail takes the datagrams that wait, or the one that it
  -- waits for: it returns how many, has each of them cut to the length of its buffer, and leaves the
  -- other buffers as they were. Whatever calls follow, no such buffer is ever longer than the
  -- datagram that it received here, so a short one cuts every later one in its buffer; for no more
  -- datagrams than buffers, which have an address each.
  pub recv_portable-IsCapped :
      (ds : List (List ℕ × SocketAddr)) (d : List ℕ × SocketAddr) (rs : List Datagram)
      (later : List (List Datagram × Datagram))
      → length (received ds d) ≤ length b.packets
      → let (r, c) = recv_portable b (map arrives ds ++ (would_block ∷ rs)) (arrives d) in
        (r ≡ some (length (received ds d)))
        × (c.packets ≡ cut_to b.packets (received ds d))
        × IsCapped (received ds d) (recv_all c later).packets
  recv_portable-IsCapped ds d rs later l =
      let c = (recv_portable b (map arrives ds ++ (would_block ∷ rs)) (arrives d)).1 in
      let (x, y) = recv_portable-eq ds d rs l in
      let s = recv_all-IsShrunk c later in
      (
        x,
        y,
        IsCapped-cut_to b.packets (recv_all c later).packets (received ds d) l
            (subst (λ ps. IsShrunk ps (recv_all c later).packets) y s),
      )
