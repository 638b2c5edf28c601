-- ===== src/Protocol/Tests.antt =====
-- Runs of the message framing, and its theorems at concrete inputs.
use rperf3_rs.Base.{ℕ, ◌≡◌, refl, List, [], ◌∷◌, Option, none, some, arith, take, All}
use rperf3_rs.Protocol.{
  Message, Json, done_msg, start_msg, serialize_message, deserialize_message, stream_id_for_index,
}
use rperf3_rs.Protocol.Framing.{
  IsFaithful, deserialize_message-take, read_all, frames, read_all-frames,
}

stream_id_for_index_runs : stream_id_for_index 10 ≡ 25
unfolding stream_id_for_index
stream_id_for_index_runs = refl

-- A codec that knows two messages.
abbrev small_to_vec : Message ℕ → Option (List ℕ)
small_to_vec done_msg = some (7 ∷ [])
small_to_vec (start_msg t) = some (8 ∷ t ∷ [])
small_to_vec _ = none

abbrev small_from_slice : List ℕ → Option (Message ℕ)
small_from_slice (c ∷ []) = some done_msg
small_from_slice (c ∷ t ∷ []) = some (start_msg t)
small_from_slice _ = none

abbrev small : Json ℕ
small = record { to_vec = small_to_vec; from_slice = small_from_slice }

done-IsFaithful : IsFaithful small done_msg
done-IsFaithful = record { bytes = 7 ∷ []; written = refl; read_back = refl; short = omega arith }

start-IsFaithful : IsFaithful small (start_msg 99)
start-IsFaithful = record {
  bytes = 8 ∷ 99 ∷ [];
  written = refl;
  read_back = refl;
  short = omega arith;
}

abbrev done_frame : List ℕ
done_frame = 0 ∷ 0 ∷ 0 ∷ 1 ∷ 7 ∷ []

done_frame_runs : serialize_message small done_msg ≡ some done_frame
unfolding serialize_message
done_frame_runs = refl

deserialize_message-take_example : deserialize_message small (take 4 done_frame) ≡ none
deserialize_message-take_example =
    deserialize_message-take small done_msg done_frame 4 done-IsFaithful done_frame_runs
      (omega arith)

abbrev two : List (Message ℕ)
two = start_msg 99 ∷ done_msg ∷ []

two-IsFaithful : All (IsFaithful small) two
two-IsFaithful = (start-IsFaithful, (done-IsFaithful, tt))

read_all-frames_example :
    (stream : List ℕ) × (frames small two ≡ some stream) × (read_all small 2 stream ≡ two)
read_all-frames_example = read_all-frames small two two-IsFaithful
