-- ===== src/Protocol/Framing.antt =====
-- The frames of src/protocol.rs on a byte stream.
use rperf3_rs.Base.{
  ℕ, zero, suc, All, ◌+◌, ◌<◌, ◌^◌, ◌≡◌, refl, sym, ap, ◌∙◌, List, [], ◌∷◌, ◌++◌, Option, none,
  some, arith, length, take, length-append, take-append, drop-append, u32_to_be, as_u32, le→leb,
  leb, false, length-take,
}
use mathlib.Core.Option.{some-injective}
use rperf3_rs.Base.Try.{◌>>=◌}
use rperf3_rs.Protocol.{
  read_body, Message, Json, read_exact, serialize_message, deserialize_message,
}

read_exact-append : (xs ys : List ℕ) → read_exact (length xs) (xs ++ ys) ≡ some (xs, ys)
unfolding read_exact
read_exact-append xs ys =
    let l = le→leb (length xs) (length (xs ++ ys)) (omega (arith, length-append xs ys)) in
    rw (l, take-append xs ys, drop-append xs ys)

read_exact_short : (n : ℕ) (xs : List ℕ) → length xs < n → read_exact n xs ≡ none
unfolding read_exact
read_exact_short n xs h = let l : leb n (length xs) ≡ false = ground arith in rw l

module _ {F : Type 0} (json : Json F) where
  -- What serde_json does on a message: it is written, and read back as it was. (A float that is no
  -- number is written as null, and is not read back.)
  pub record IsFaithful (m : Message F) : Type 0 where
    pub bytes : List ℕ
    pub written : json.to_vec m ≡ some bytes
    pub read_back : json.from_slice bytes ≡ some m
    pub short : length bytes < 2 ^ 32

  -- The bytes of a message and its frame.
  frame_of :
      (m : Message F) (v : IsFaithful m)
      → serialize_message json m ≡ some (u32_to_be (length v.bytes) ++ v.bytes)
  unfolding serialize_message
  frame_of m v =
      let e : as_u32 (length v.bytes) ≡ length v.bytes = omega (arith, v.short) in rw (v.written, e)

  deserialize_framed :
      (n : ℕ) (body : List ℕ)
      → n < 2 ^ 32
      → deserialize_message json (u32_to_be n ++ body) ≡ read_body json n body
  unfolding deserialize_message
  deserialize_framed n body h =
      rw (read_exact-append (u32_to_be n) body) (ap (λ l. read_body json l body) (omega arith))

  read_body-append :
      (m : Message F) (rest : List ℕ) (v : IsFaithful m)
      → read_body json (length v.bytes) (v.bytes ++ rest) ≡ some (m, rest)
  unfolding read_body
  read_body-append m rest v = rw (read_exact-append v.bytes rest, v.read_back)

  deserialize-frame_of :
      (m : Message F) (rest : List ℕ) (v : IsFaithful m)
      → deserialize_message json ((u32_to_be (length v.bytes) ++ v.bytes) ++ rest) ≡ some (m, rest)
  deserialize-frame_of m rest v =
      deserialize_framed (length v.bytes) (v.bytes ++ rest) v.short ∙ read_body-append m rest v

  -- A message that is written as less than 2^32 bytes is read back from its frame, and what follows
  -- the frame is left to be read.
  deserialize_message-serialize_message :
      (m : Message F) (rest : List ℕ)
      → IsFaithful m
      → (frame : List ℕ) × (serialize_message json m ≡ some frame)
        × (deserialize_message json (frame ++ rest) ≡ some (m, rest))
  deserialize_message-serialize_message m rest v =
      (u32_to_be (length v.bytes) ++ v.bytes, frame_of m v, deserialize-frame_of m rest v)

  read_body_short : (n : ℕ) (body : List ℕ) → length body < n → read_body json n body ≡ none
  unfolding read_body
  read_body_short n body h = rw (read_exact_short n body h)

  deserialize_short : (reader : List ℕ) → length reader < 4 → deserialize_message json reader ≡ none
  unfolding deserialize_message
  deserialize_short reader h = rw (read_exact_short 4 reader h)

  cut_frame :
      (n k : ℕ) (bytes : List ℕ)
      → n < 2 ^ 32
      → k < 4 + length bytes
      → length bytes ≡ n
      → deserialize_message json (take k (u32_to_be n ++ bytes)) ≡ none
  cut_frame n zero bytes s h l = deserialize_short [] (omega arith)
  cut_frame n (suc zero) bytes s h l = deserialize_short (take 1 (u32_to_be n)) (omega arith)
  cut_frame n (suc (suc zero)) bytes s h l = deserialize_short (take 2 (u32_to_be n)) (omega arith)
  cut_frame n (suc (suc (suc zero))) bytes s h l =
      deserialize_short (take 3 (u32_to_be n)) (omega arith)
  cut_frame n (suc (suc (suc (suc k)))) bytes s h l =
      deserialize_framed n (take k bytes) s
      ∙ read_body_short n (take k bytes) (omega (arith, length-take k bytes))

  -- A frame that is cut short anywhere is not read as a message.
  pub deserialize_message-take :
      (m : Message F) (frame : List ℕ) (k : ℕ)
      → IsFaithful m
      → serialize_message json m ≡ some frame
      → k < length frame
      → deserialize_message json (take k frame) ≡ none
  deserialize_message-take m frame k v e h =
      let f : u32_to_be (length v.bytes) ++ v.bytes ≡ frame =
        some-injective _ _ (sym (frame_of m v) ∙ e) in
      let l : k < 4 + length v.bytes = omega (arith, ap length f) in
      rw (← f) (cut_frame (length v.bytes) k v.bytes v.short l refl)

  abbrev pub and_then : Option (Message F × List ℕ) → (List ℕ → List (Message F)) → List (Message F)
  and_then none more = []
  and_then (some (m, rest)) more = m ∷ more rest

  -- The messages on a stream that ends, with `n` an upper bound of them.
  unfoldable pub read_all : ℕ → List ℕ → List (Message F)
  read_all zero reader = []
  read_all (suc n) reader = and_then (deserialize_message json reader) (read_all n)

  -- The frames of messages, one after another.
  unfoldable pub frames : List (Message F) → Option (List ℕ)
  frames [] = some []
  frames (m ∷ ms) = do frame ← serialize_message json m; rest ← frames ms; some (frame ++ rest)

  -- What serialize_message writes for messages, one after another, is read as these messages, in their
  -- order, if serde_json writes each as less than 2^32 bytes and reads it back.
  pub read_all-frames :
      (ms : List (Message F))
      → All IsFaithful ms
      → (stream : List ℕ) × (frames ms ≡ some stream) × (read_all (length ms) stream ≡ ms)
  unfolding read_all frames
  read_all-frames [] v = ([], refl, refl)
  read_all-frames (m ∷ ms) v =
      let (rest, e, r) = read_all-frames ms v.1 in
      let frame = u32_to_be (length v.0.bytes) ++ v.0.bytes in
      (
        frame ++ rest,
        rw (frame_of m v.0, e) refl,
        ap (λ o. and_then o (read_all (length ms))) (deserialize-frame_of m rest v.0)
            ∙ ap (λ l. m ∷ l) r,
      )
