-- ===== src/Core/Header.antt =====
-- core.py, the header: sixteen little-endian int64 words at the start of a segment.
-- A word is read as the number of its 64 bits. All that the library assigns lies below 2 ^ 63, where
-- that number is the signed one; a counter that is incremented past it wraps round 2 ^ 64.
use shm_comm.Prelude.{ℕ, ◌+◌, ◌*◌, ◌%◌, ◌^◌, ltb, leb, ◌==◌, if◌then◌else◌}
use shm_comm.Exec.{
  Action, ok, raised, check, ◌>>=◌, ◌>>◌, overflow_error, type_error, shm_connection_error,
}
use shm_comm.Memory.{Memory, load_bytes, store_bytes, encode_le, decode_le}

abbrev pub magic : ℕ
magic = 0x53484D434F4D4D31

abbrev pub version : ℕ
version = 1

abbrev pub header_size : ℕ
header_size = 128

abbrev pub idx_magic : ℕ
idx_magic = 0

abbrev pub idx_version : ℕ
idx_version = 1

abbrev pub idx_head : ℕ
idx_head = 2

abbrev pub idx_tail : ℕ
idx_tail = 3

abbrev pub idx_msg_count : ℕ
idx_msg_count = 4

abbrev pub idx_drop_count : ℕ
idx_drop_count = 5

abbrev pub idx_num_slots : ℕ
idx_num_slots = 6

abbrev pub idx_slot_size : ℕ
idx_slot_size = 7

abbrev pub slot_prefix_size : ℕ
slot_prefix_size = 4

-- The whole size of a segment, in bytes.
unfoldable pub segment_size : ℕ → ℕ → ℕ
segment_size num_slots slot_size = header_size + num_slots * slot_size

-- `hdr[i]` as the number of its 64 bits
unfoldable pub get_field : ℕ → Memory → ℕ
get_field i m = decode_le (load_bytes m.byte (8 * i) 8)

unfoldable pub set_field : ℕ → ℕ → Memory → Memory
set_field i v m = record m { byte = store_bytes m.byte (8 * i) (encode_le 8 v) }

-- numpy refuses a view that is larger than the buffer.
unfoldable pub get_header : Action Memory (Unit {0})
get_header m = if leb header_size m.size then (ok tt, m) else (raised type_error, m)

-- `int(hdr[i])`
unfoldable pub field : ℕ → Action Memory ℕ
field i m = (ok (get_field i m), m)

-- `hdr[i] = np.int64(v)`; numpy refuses what an int64 cannot hold.
unfoldable pub assign : ℕ → ℕ → Action Memory (Unit {0})
assign i v m = if ltb v (2 ^ 63) then (ok tt, set_field i v m) else (raised overflow_error, m)

-- `hdr[i] += 1` in int64 arithmetic
unfoldable pub increment : ℕ → Action Memory (Unit {0})
increment i m = (ok tt, set_field i ((get_field i m + 1) % 2 ^ 64) m)

unfoldable pub init_header : ℕ → ℕ → Action Memory (Unit {0})
unfolding get_header assign
init_header num_slots slot_size = do
  get_header
  assign idx_magic magic
  assign idx_version version
  assign idx_head 0
  assign idx_tail 0
  assign idx_msg_count 0
  assign idx_drop_count 0
  assign idx_num_slots num_slots
  assign idx_slot_size slot_size

unfoldable pub validate_header : Action Memory (Unit {0})
unfolding get_header field
validate_header = do
  get_header
  found_magic ← field idx_magic
  check (found_magic == magic) shm_connection_error
  found_version ← field idx_version
  check (found_version == version) shm_connection_error
