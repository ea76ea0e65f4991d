-- ===== src/Buffer.antt =====
-- buffer.py: the ring of slots behind the header. Each operation is an action on the segment's
-- memory; the proofs are in the modules below.
pub mod Slots
pub mod Patch
pub mod Torn
pub mod SlotReads
pub mod Overtake
pub mod Segment
pub mod Fields
pub mod Write
pub mod Read
pub mod Queue
pub mod Refine
pub mod History
pub mod Subscription
pub mod Exchange
pub mod Statistics
pub mod Burst
pub mod Blocking
use shm_comm.Prelude.{
  ℕ, ◌+◌, ◌-◌, ◌*◌, ◌%◌, ◌^◌, min, Bool, true, false, not, Option, none, some, List, leb, ltb, ◌==◌,
  ◌&&◌, if◌then◌else◌, length,
}
use shm_comm.Prelude.Int.{ℤ, as_int64}
use shm_comm.Exec.{
  Action, Outcome, ok, raised, pure, check, py_mod, ◌>>=◌, ◌>>◌, value_error, struct_error,
  zero_division_error, shm_buffer_full_error,
}
use shm_comm.Exec.Spin.{World, deadline, spin}
use shm_comm.Memory.{Memory, load_bytes, store_bytes, encode_le, decode_le}
use shm_comm.Core.Header.{
  header_size, slot_prefix_size, idx_head, idx_tail, idx_msg_count, idx_drop_count, idx_num_slots,
  idx_slot_size, get_header, field, assign, increment,
}

unfoldable pub slot_offset : ℕ → ℕ → ℕ
slot_offset slot_index slot_size = header_size + slot_index * slot_size

-- `_SIZE_STRUCT.pack_into`: struct refuses a number of more than 32 bits, and a place outside `buf`.
unfoldable pub pack_into : ℕ → ℕ → Action Memory (Unit {0})
pack_into offset v m =
    if ltb v (2 ^ 32) && leb (offset + slot_prefix_size) m.size
    then (ok tt, record m { byte = store_bytes m.byte offset (encode_le slot_prefix_size v) })
    else (raised struct_error, m)

-- `shm.buf[start:start + len(payload)] = payload`: the slice stops at the end of `buf`, and a slice of
-- another length is refused.
unfoldable pub store_slice : ℕ → List ℕ → Action Memory (Unit {0})
store_slice start payload m =
    if leb (start + length payload) m.size
    then (ok tt, record m { byte = store_bytes m.byte start payload })
    else (raised value_error, m)

unfoldable pub write_slot : ℕ → ℕ → List ℕ → Action Memory (Unit {0})
unfolding slot_offset pack_into store_slice
write_slot slot_index slot_size payload = do
  pack_into (slot_offset slot_index slot_size) (length payload)
  store_slice (slot_offset slot_index slot_size + slot_prefix_size) payload

unfoldable pub unpack_from : ℕ → Action Memory ℕ
unpack_from offset m =
    if leb (offset + slot_prefix_size) m.size
    then (ok (decode_le (load_bytes m.byte offset slot_prefix_size)), m)
    else (raised struct_error, m)

-- `bytes(shm.buf[start:start + n])`, which stops at the end of `buf`
unfoldable pub load_slice : ℕ → ℕ → Action Memory (List ℕ)
load_slice start n m = (ok (load_bytes m.byte start (min n (m.size - start))), m)

unfoldable pub read_slot : ℕ → ℕ → Action Memory (List ℕ)
unfolding slot_offset unpack_from load_slice
read_slot slot_index slot_size = do
  payload_size ← unpack_from (slot_offset slot_index slot_size)
  load_slice (slot_offset slot_index slot_size + slot_prefix_size) payload_size

-- One round of the wait for a free slot: `some true` is `break`, `some false` is `return False`.
unfoldable pub try_room : ℕ → Bool → Action Memory (Option Bool)
unfolding field py_mod increment
try_room num_slots block = do
  head ← field idx_head
  tail ← field idx_tail
  next_head ← py_mod (head + 1) num_slots
  if not (next_head == tail)
      then pure (some true)
      else (if not block then (increment idx_drop_count >>= λ _. pure (some false)) else pure none)

unfoldable pub wait_for_room : World Memory → ℕ → ℕ → Bool → Option ℕ → Action Memory Bool
unfolding deadline
wait_for_room w fuel num_slots block timeout =
    spin w (if block then deadline w timeout else none) (raised shm_buffer_full_error)
      (try_room num_slots block) fuel 0

-- From the second reading of the head on: write the slot, then advance the head, then count.
unfoldable pub commit : ℕ → ℕ → List ℕ → Action Memory Bool
unfolding field py_mod assign increment
commit num_slots slot_size payload = do
  head ← field idx_head
  next_head ← py_mod (head + 1) num_slots
  write_slot head slot_size payload
  assign idx_head next_head
  increment idx_msg_count
  pure true

-- `fuel` bounds the rounds of the wait, which only a blocking call can need more than one of. A slot
-- size below the prefix leaves no payload that fits.
unfoldable pub write_message :
    World Memory → ℕ → List ℕ → Bool → Option ℕ → Bool → Action Memory Bool
unfolding get_header field
write_message w fuel payload block timeout overwrite = do
  get_header
  num_slots ← field idx_num_slots
  slot_size ← field idx_slot_size
  check (leb (length payload + slot_prefix_size) slot_size) value_error
  free ← if overwrite then pure true else wait_for_room w fuel num_slots block timeout
  if free then commit num_slots slot_size payload else pure false

unfoldable pub read_message_spsc : ℕ → Action Memory (Option (List ℕ × ℕ))
unfolding get_header field py_mod
read_message_spsc local_tail = do
  get_header
  head ← field idx_head
  num_slots ← field idx_num_slots
  slot_size ← field idx_slot_size
  if local_tail == head then pure none else do
    payload ← read_slot local_tail slot_size
    new_tail ← py_mod (local_tail + 1) num_slots
    pure (some (payload, new_tail))

unfoldable pub read_message_shared_tail : Action Memory (Option (List ℕ))
unfolding get_header field py_mod assign
read_message_shared_tail = do
  get_header
  head ← field idx_head
  tail ← field idx_tail
  num_slots ← field idx_num_slots
  slot_size ← field idx_slot_size
  if tail == head then pure none else do
    payload ← read_slot tail slot_size
    new_tail ← py_mod (tail + 1) num_slots
    assign idx_tail new_tail
    pure (some payload)

pub record Stats : Type 0 where
  pub head : ℕ
  pub tail : ℕ
  pub num_slots : ℕ
  pub slot_size : ℕ
  pub msg_count : ℤ
  pub drop_count : ℤ
  pub used_slots : ℕ
  pub free_slots : ℕ

-- `(a - b) % n`, which Python takes between 0 and n.
unfoldable pub sub_mod : ℕ → ℕ → ℕ → Action Memory ℕ
sub_mod a b n m =
    if n == 0
    then (raised zero_division_error, m)
    else (ok (if leb b a then (a - b) % n else (n - (b - a) % n) % n), m)

unfoldable pub get_stats : Action Memory Stats
unfolding get_header field
get_stats = do
  get_header
  head ← field idx_head
  tail ← field idx_tail
  num_slots ← field idx_num_slots
  used ← sub_mod head tail num_slots
  slot_size ← field idx_slot_size
  msg_count ← field idx_msg_count
  drop_count ← field idx_drop_count
  pure (record {
    head = head;
    tail = tail;
    num_slots = num_slots;
    slot_size = slot_size;
    msg_count = as_int64 msg_count;
    drop_count = as_int64 drop_count;
    used_slots = used;
    free_slots = num_slots - used - 1;
  })
