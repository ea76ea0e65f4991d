-- ===== src/Buffer/Statistics.antt =====
-- What `get_stats` reports of a well-formed segment.
use shm_comm.Prelude.{ℕ, ◌+◌, ◌-◌, ◌≡◌, refl, sym, ap, arith, length, le→leb, lt→leb, ne→==, dec_le}
use shm_comm.Prelude.Remainder.{mod-below}
use shm_comm.Prelude.Int.{as_int64}
use shm_comm.Exec.{Outcome, ok}
use shm_comm.Memory.{Memory}
use shm_comm.Core.Header.{idx_msg_count, idx_drop_count, get_field}
use shm_comm.Ring.Cursor.{ahead, ahead-of_le, ahead-of_lt, ahead-lt}
use shm_comm.Buffer.{Stats, sub_mod, get_stats}
use shm_comm.Buffer.Segment.{IsSegment}
use shm_comm.Buffer.Queue.{contents, length-contents, head_of, tail_of}

module _ {n z : ℕ} {m : Memory} (s : IsSegment n z m) where
  open s use {num_slots, slot_size, some_slot, prefix, fits, head_in, tail_in}

  -- `(head - tail) % num_slots` is the distance from the tail to the head.
  sub_mod-ahead : sub_mod (head_of m) (tail_of m) n m ≡ (ok (ahead n (head_of m) (tail_of m)), m)
  unfolding sub_mod
  sub_mod-ahead = elim (dec_le (tail_of m) (head_of m)) [
    | yes le ↦ rw (
      ne→== n 0 (omega arith),
      le→leb (tail_of m) (head_of m) le,
      ahead-of_le n (head_of m) head_in (tail_of m) le,
      mod-below (head_of m - tail_of m) n (omega arith),
    )
    | no gt ↦
        rw
          (
            ne→== n 0 (omega arith),
            lt→leb (tail_of m) (head_of m) (omega arith),
            ahead-of_lt n (head_of m) head_in (tail_of m) (omega arith) tail_in,
            mod-below (tail_of m - head_of m) n (omega arith),
            mod-below (n - (tail_of m - head_of m)) n (omega arith),
          )
          (ap ok_of (omega arith))
  ]
    where
      ok_of : ℕ → Outcome ℕ × Memory
      ok_of k = (ok k, m)

  -- The statistics of a well-formed segment change nothing. The used slots are as many as the
  -- payloads between the shared tail and the head, with the free slots they make up the slots
  -- less one, the geometry is the segment's, and the two counters are the header's words read
  -- as int64.
  pub get_stats-lem :
      (r : Stats) × (get_stats m ≡ (ok r, m))
      × (r.used_slots ≡ length (contents n z m))
      × (r.used_slots + r.free_slots ≡ n - 1)
      × (r.num_slots ≡ n)
      × (r.slot_size ≡ z)
      × (r.msg_count ≡ as_int64 (get_field idx_msg_count m))
      × (r.drop_count ≡ as_int64 (get_field idx_drop_count m))
  unfolding get_stats
  get_stats-lem =
      let used = ahead n (head_of m) (tail_of m) in
      (
        record {
          head = head_of m;
          tail = tail_of m;
          num_slots = n;
          slot_size = z;
          msg_count = as_int64 (get_field idx_msg_count m);
          drop_count = as_int64 (get_field idx_drop_count m);
          used_slots = used;
          free_slots = n - used - 1;
        },
        rw (le→leb 128 m.size (omega arith), num_slots, sub_mod-ahead, slot_size),
        sym (length-contents n z m),
        omega (arith, ahead-lt n (head_of m) (tail_of m)),
        refl,
        refl,
        refl,
        refl,
      )
