-- ===== src/Buffer/Write.antt =====
-- `write_message` on a well-formed segment: what each branch returns and leaves behind.
use shm_comm.Prelude.{
  ℕ, suc, ◌+◌, ◌%◌, ◌≤◌, ◌<◌, ◌≡◌, ◌≢◌, Bool, true, false, Option, none, some, arith, List, length,
  le→leb, lt→leb, ne→==, eq→==,
}
use shm_comm.Exec.{ok, raised, value_error}
use shm_comm.Exec.Spin.{World, spin-done}
use shm_comm.Memory.{Memory}
use shm_comm.Core.Header.{idx_head, idx_tail, get_field}
use shm_comm.Buffer.{try_room, wait_for_room, write_message}
use shm_comm.Buffer.Segment.{IsSegment, committed, commit-committed}
use shm_comm.Buffer.Fields.{dropped}

module _ {n z : ℕ} {m : Memory} (s : IsSegment n z m) where
  open s use {num_slots, slot_size, some_slot, prefix, narrow, fits, head_in, tail_in}

  pub header_inside : 128 ≤ m.size
  header_inside = omega arith

  pub try_room-free :
      (block : Bool)
      → (get_field idx_head m + 1) % n ≢ get_field idx_tail m
      → try_room n block m ≡ (ok (some true), m)
  unfolding try_room
  try_room-free block free = rw (ne→== n 0 (omega arith), ne→== _ _ free)

  pub try_room-drop :
      (get_field idx_head m + 1) % n ≡ get_field idx_tail m
      → try_room n false m ≡ (ok (some false), dropped m)
  unfolding try_room dropped
  try_room-drop full = rw (ne→== n 0 (omega arith), eq→== _ _ full)

  pub try_room-wait :
      (get_field idx_head m + 1) % n ≡ get_field idx_tail m → try_room n true m ≡ (ok none, m)
  unfolding try_room
  try_room-wait full = rw (ne→== n 0 (omega arith), eq→== _ _ full)

  module _ (w : World Memory) (fuel : ℕ) (p : List ℕ) (block : Bool) (timeout : Option ℕ) where
    -- A payload that does not fit a slot is refused in every mode, and nothing is written.
    pub write_message-too_large :
        (overwrite : Bool)
        → z < length p + 4
        → write_message w fuel p block timeout overwrite m ≡ (raised value_error, m)
    unfolding write_message
    write_message-too_large overwrite big =
        rw (le→leb 128 m.size header_inside, slot_size, lt→leb (length p + 4) z big)

    module _ (room : length p + 4 ≤ z) where
      pub write_message-overwrite :
          write_message w fuel p block timeout true m ≡ (ok true, committed n z p m)
      unfolding write_message
      write_message-overwrite = rw (
        le→leb 128 m.size header_inside,
        slot_size,
        num_slots,
        le→leb (length p + 4) z room,
        commit-committed s p room,
      )

      pub write_message-free :
          (get_field idx_head m + 1) % n ≢ get_field idx_tail m
          → write_message w (suc fuel) p block timeout false m ≡ (ok true, committed n z p m)
      unfolding write_message wait_for_room
      write_message-free free = rw (
        le→leb 128 m.size header_inside,
        slot_size,
        num_slots,
        le→leb (length p + 4) z room,
        spin-done w _ _ (try_room n block) fuel 0 m m true (try_room-free block free),
        commit-committed s p room,
      )

      pub write_message-full :
          (get_field idx_head m + 1) % n ≡ get_field idx_tail m
          → write_message w (suc fuel) p false timeout false m ≡ (ok false, dropped m)
      unfolding write_message wait_for_room
      write_message-full full = rw (
        le→leb 128 m.size header_inside,
        slot_size,
        num_slots,
        le→leb (length p + 4) z room,
        spin-done w _ _ (try_room n false) fuel 0 m (dropped m) false (try_room-drop full),
      )
