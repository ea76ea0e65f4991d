-- ===== src/Tests/Followers.antt =====
-- Theorems on readers with private cursors, at one small ring and one interleaving.
use shm_comm.Prelude.{◌+◌, ◌≤◌, ◌<◌, ◌≡◌, ◌≢◌, refl, true, false, List, [], ◌∷◌, ◌++◌, length, drop}
use shm_comm.Memory.Words.{encode_le, decode_le}
use shm_comm.Memory.Bytes.{load_bytes, store_bytes}
use shm_comm.Core.Header.{get_field, set_field}
use shm_comm.Buffer.{slot_offset, pack_into, store_slice, unpack_from, load_slice}
use shm_comm.Lifecycle.Init.{initialised}
use shm_comm.Buffer.Segment.{IsSegment}
use shm_comm.Buffer.Queue.{head_of, tail_of}
use shm_comm.Race.{WriterPc, writer_turn}
use shm_comm.Race.Broadcast.{
  Broadcast, WatcherPc, Event, submit, write, subscribe, poll, watch, step, run, any_turn,
  watcher_turn, join,
}
use shm_comm.Race.Broadcast.Following.{start, keeps_up, received_in_order}
use shm_comm.Race.Broadcast.Private.{received_in_order_unless_full}
use shm_comm.Tests.{ring, ring-IsSegment}

-- Reader 4 begins to read when the slot is published, and the writer goes on meanwhile.
abbrev overlapping : List Event
overlapping =
    subscribe 4
    ∷ submit (7 ∷ []) false
    ∷ write
    ∷ write
    ∷ write
    ∷ write
    ∷ write
    ∷ poll 4
    ∷ watch 4
    ∷ write
    ∷ watch 4
    ∷ submit (8 ∷ []) false
    ∷ write
    ∷ watch 4
    ∷ write
    ∷ write
    ∷ watch 4
    ∷ []

abbrev streamed : Broadcast
streamed = run true overlapping (start ring)

reader_in_time : keeps_up true 3 4 overlapping (start ring) ≡ true
unfolding keeps_up step any_turn writer_turn watcher_turn join initialised set_field get_field
    decode_le load_bytes store_bytes encode_le pack_into slot_offset store_slice
reader_in_time = refl

received_in_order_example :
    (drop (streamed.watchers 4).joined streamed.sent
      ≡ (streamed.watchers 4).received
        ++ drop
            ((streamed.watchers 4).joined + length (streamed.watchers 4).received)
            streamed.sent)
    × ((streamed.watchers 4).joined + length (streamed.watchers 4).received ≤ length streamed.sent)
    × ((streamed.watchers 4).pc ≢ WatcherPc.failed)
    × (streamed.writer ≢ WriterPc.failed)
    × IsSegment 3 16 streamed.memory
received_in_order_example = received_in_order ring-IsSegment true overlapping 4 reader_in_time

-- The reader has received the payload.
one_received : ((run true overlapping (start ring)).watchers 4).received ≡ (7 ∷ []) ∷ []
unfolding run step any_turn writer_turn watcher_turn join initialised set_field get_field decode_le
    load_bytes store_bytes encode_le pack_into slot_offset store_slice unpack_from load_slice
one_received = refl

ring-is_even : head_of ring ≡ tail_of ring
unfolding initialised set_field get_field decode_le load_bytes store_bytes encode_le
ring-is_even = refl

abbrev answered : Broadcast
answered = run false overlapping (start ring)

received_in_order_unless_full_example :
    (drop (answered.watchers 4).joined answered.sent
      ≡ (answered.watchers 4).received
        ++ drop
            ((answered.watchers 4).joined + length (answered.watchers 4).received)
            answered.sent)
    × (length answered.sent < 3)
    × (tail_of answered.memory ≡ tail_of ring)
    × ((answered.watchers 4).pc ≢ WatcherPc.failed)
    × (answered.writer ≢ WriterPc.failed)
received_in_order_unless_full_example =
    received_in_order_unless_full ring-IsSegment ring-is_even overlapping 4
