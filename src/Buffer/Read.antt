-- ===== src/Buffer/Read.antt =====
-- The two ways to read from a well-formed segment: what each branch returns and leaves behind.
use shm_comm.Prelude.{
  ℕ, ◌+◌, ◌%◌, ◌^◌, ◌≤◌, ◌<◌, ◌≡◌, refl, ◌≢◌, none, some, arith, le→leb, lt→ltb, ne→==, eq→==,
}
use shm_comm.Exec.{ok}
use shm_comm.Memory.{Memory}
use shm_comm.Core.Header.{idx_head, idx_tail, get_field}
use shm_comm.Buffer.{read_message_spsc, read_message_shared_tail, slot_offset}
use shm_comm.Buffer.Slots.{payload_at, read_slot-payload_at, slot_inside}
use shm_comm.Buffer.Segment.{IsSegment}
use shm_comm.Buffer.Fields.{claimed}

module _ {n z : ℕ} {m : Memory} (s : IsSegment n z m) where
  open s use {num_slots, slot_size, some_slot, few, prefix, fits, head_in, tail_in}

  header_inside : 128 ≤ m.size
  header_inside = omega arith

  slot_prefix_inside : (i : ℕ) → i < n → slot_offset i z + 4 ≤ m.size
  slot_prefix_inside i h = omega (arith, slot_inside i n z h)

  pub read_message_spsc-empty : read_message_spsc (get_field idx_head m) m ≡ (ok none, m)
  unfolding read_message_spsc
  read_message_spsc-empty =
      rw (le→leb 128 m.size header_inside, eq→== (get_field idx_head m) (get_field idx_head m) refl)

  -- A read by a private cursor changes nothing in the segment.
  pub read_message_spsc-some :
      (c : ℕ)
      → c < n
      → c ≢ get_field idx_head m
      → read_message_spsc c m ≡ (ok (some (payload_at z m c, (c + 1) % n)), m)
  unfolding read_message_spsc
  read_message_spsc-some c h ne = rw (
    le→leb 128 m.size header_inside,
    ne→== c (get_field idx_head m) ne,
    slot_size,
    num_slots,
    read_slot-payload_at z c m (slot_prefix_inside c h),
    ne→== n 0 (omega arith),
  )

  pub read_message_shared_tail-empty :
      get_field idx_tail m ≡ get_field idx_head m → read_message_shared_tail m ≡ (ok none, m)
  unfolding read_message_shared_tail
  read_message_shared_tail-empty e =
      rw (le→leb 128 m.size header_inside, eq→== (get_field idx_tail m) (get_field idx_head m) e)

  pub read_message_shared_tail-some :
      get_field idx_tail m ≢ get_field idx_head m
      → read_message_shared_tail m
        ≡ (ok (some (payload_at z m (get_field idx_tail m))), claimed n m)
  unfolding read_message_shared_tail claimed
  read_message_shared_tail-some ne = rw (
    le→leb 128 m.size header_inside,
    ne→== (get_field idx_tail m) (get_field idx_head m) ne,
    slot_size,
    num_slots,
    read_slot-payload_at z (get_field idx_tail m) m (slot_prefix_inside _ tail_in),
    ne→== n 0 (omega arith),
    lt→ltb ((get_field idx_tail m + 1) % n) (2 ^ 63) (omega arith),
  )
