-- ===== src/Buffer/Fields.antt =====
-- Segments whose counter or shared tail was written (`write_message` on a full ring, a claim).
use shm_comm.Prelude.{ℕ, ◌+◌, ◌%◌, ◌^◌, ◌≡◌, ◌∙◌, arith}
use shm_comm.Memory.{Memory}
use shm_comm.Core.Header.{
  idx_head, idx_tail, idx_drop_count, idx_num_slots, idx_slot_size, get_field, set_field,
}
use shm_comm.Core.Fields.{get_field-set_field_self, get_field-set_field_ne, size-set_field}
use shm_comm.Buffer.Slots.{size_at-set_field}
use shm_comm.Buffer.Segment.{IsSegment}

-- The memory after a refused write, and after a claim of the shared tail.
unfoldable pub dropped : Memory → Memory
dropped m = set_field idx_drop_count ((get_field idx_drop_count m + 1) % 2 ^ 64) m

unfoldable pub claimed : ℕ → Memory → Memory
claimed n m = set_field idx_tail ((get_field idx_tail m + 1) % n) m

module _ {n z : ℕ} {m : Memory} (s : IsSegment n z m) where
  open s use {num_slots, slot_size, some_slot, few, prefix, narrow, fits, head_in, tail_in, sizes}

  pub dropped-IsSegment : IsSegment n z (dropped m)
  unfolding dropped
  dropped-IsSegment = record {
    num_slots = get_field-set_field_ne idx_drop_count idx_num_slots _ m (omega arith) ∙ num_slots;
    slot_size = get_field-set_field_ne idx_drop_count idx_slot_size _ m (omega arith) ∙ slot_size;
    some_slot = some_slot;
    few = few;
    prefix = prefix;
    narrow = narrow;
    fits =
        omega (arith, size-set_field idx_drop_count ((get_field idx_drop_count m + 1) % 2 ^ 64) m);
    head_in = rw (get_field-set_field_ne idx_drop_count idx_head _ m (omega arith)) head_in;
    tail_in = rw (get_field-set_field_ne idx_drop_count idx_tail _ m (omega arith)) tail_in;
    sizes = λ i lt. rw (size_at-set_field z idx_drop_count _ m i (omega arith)) (sizes i lt);
  }

  pub tail-claimed : get_field idx_tail (claimed n m) ≡ (get_field idx_tail m + 1) % n
  unfolding claimed
  tail-claimed = get_field-set_field_self idx_tail _ m (omega arith)

  pub claimed-IsSegment : IsSegment n z (claimed n m)
  unfolding claimed
  claimed-IsSegment = record {
    num_slots = get_field-set_field_ne idx_tail idx_num_slots _ m (omega arith) ∙ num_slots;
    slot_size = get_field-set_field_ne idx_tail idx_slot_size _ m (omega arith) ∙ slot_size;
    some_slot = some_slot;
    few = few;
    prefix = prefix;
    narrow = narrow;
    fits = omega (arith, size-set_field idx_tail ((get_field idx_tail m + 1) % n) m);
    head_in = rw (get_field-set_field_ne idx_tail idx_head _ m (omega arith)) head_in;
    tail_in =
        omega (
          arith,
          get_field-set_field_self idx_tail ((get_field idx_tail m + 1) % n) m (omega arith),
        );
    sizes = λ i lt. rw (size_at-set_field z idx_tail _ m i (omega arith)) (sizes i lt);
  }
