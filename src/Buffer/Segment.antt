-- ===== src/Buffer/Segment.antt =====
-- Well-formed segments: the geometry that the header states, both cursors inside the ring, and every
-- slot's size prefix within its slot. What a committed write does to all of these.
use shm_comm.Prelude.{
  ℕ, ◌+◌, ◌*◌, ◌%◌, ◌^◌, ◌≤◌, ◌<◌, ◌≡◌, ap, ◌∙◌, ◌≢◌, true, arith, List, length, lt→ltb, ne→==,
  ℕ_discrete,
}
use shm_comm.Prelude.Remainder.{succ_mod-lt}
use shm_comm.Exec.{ok}
use shm_comm.Memory.{Memory}
use shm_comm.Core.Header.{
  idx_head, idx_tail, idx_msg_count, idx_num_slots, idx_slot_size, get_field, set_field,
}
use shm_comm.Core.Fields.{get_field-set_field_self, get_field-set_field_ne, size-set_field}
use shm_comm.Buffer.{commit, slot_offset}
use shm_comm.Buffer.Slots.{
  size_at, payload_at, put_payload, slot_inside, write_slot-put_payload, size_at-put_payload_self,
  payload_at-put_payload_self, get_field-put_payload, size-put_payload, size_at-put_payload_ne,
  payload_at-put_payload_ne, size_at-set_field, payload_at-set_field,
}

pub record IsSegment (n z : ℕ) (m : Memory) : Type 0 where
  pub num_slots : get_field idx_num_slots m ≡ n
  pub slot_size : get_field idx_slot_size m ≡ z
  pub some_slot : 0 < n
  pub few : n < 2 ^ 63
  pub prefix : 4 ≤ z
  pub narrow : z ≤ 2 ^ 32
  pub fits : 128 + n * z ≤ m.size
  pub head_in : get_field idx_head m < n
  pub tail_in : get_field idx_tail m < n
  pub sizes : (i : ℕ) → i < n → size_at z m i + 4 ≤ z

-- The memory after a committed write: the slot, then the head, then the counter.
abbrev pub moved : ℕ → ℕ → List ℕ → Memory → Memory
moved n z p m =
    set_field idx_head ((get_field idx_head m + 1) % n) (put_payload z (get_field idx_head m) p m)

unfoldable pub committed : ℕ → ℕ → List ℕ → Memory → Memory
committed n z p m =
    set_field idx_msg_count ((get_field idx_msg_count (moved n z p m) + 1) % 2 ^ 64) (moved n z p m)

module _ {n z : ℕ} {m : Memory} (s : IsSegment n z m) (p : List ℕ) (room : length p + 4 ≤ z) where
  open s use {num_slots, slot_size, some_slot, few, prefix, narrow, fits, head_in, tail_in, sizes}

  abbrev at : ℕ
  at = get_field idx_head m

  short : length p < 2 ^ 32
  short = omega arith

  inside : slot_offset at z + 4 + length p ≤ m.size
  inside = omega (arith, slot_inside at n z head_in)

  pub commit-committed : commit n z p m ≡ (ok true, committed n z p m)
  unfolding commit committed
  commit-committed = rw (
    ne→== n 0 (omega arith),
    write_slot-put_payload z at p m short inside,
    lt→ltb ((at + 1) % n) (2 ^ 63) (omega arith),
  )

  pub get_field-committed :
      (k : ℕ)
      → k < 16
      → k ≢ idx_head
      → k ≢ idx_msg_count
      → get_field k (committed n z p m) ≡ get_field k m
  unfolding committed
  get_field-committed k lt nh nm =
      get_field-set_field_ne idx_msg_count k _ (moved n z p m) (λ e. nm (omega arith))
      ∙ get_field-set_field_ne idx_head k _ (put_payload z at p m) (λ e. nh (omega arith))
      ∙ get_field-put_payload z at p m short inside k lt

  pub head-committed : get_field idx_head (committed n z p m) ≡ (at + 1) % n
  unfolding committed
  head-committed =
      get_field-set_field_ne idx_msg_count idx_head _ (moved n z p m) (omega arith)
      ∙ get_field-set_field_self idx_head ((at + 1) % n) (put_payload z at p m) (omega arith)

  pub msg_count-committed :
      get_field idx_msg_count (committed n z p m) ≡ (get_field idx_msg_count m + 1) % 2 ^ 64
  unfolding committed
  msg_count-committed =
      get_field-set_field_self idx_msg_count _ (moved n z p m) (omega arith)
      ∙ ap (λ (c : ℕ). (c + 1) % 2 ^ 64)
          (get_field-set_field_ne idx_head idx_msg_count _ (put_payload z at p m) (omega arith)
            ∙ get_field-put_payload z at p m short inside idx_msg_count (omega arith))

  pub size-committed : (committed n z p m).size ≡ m.size
  unfolding committed
  size-committed =
      size-set_field idx_msg_count _ (moved n z p m)
      ∙ size-set_field idx_head _ (put_payload z at p m)
      ∙ size-put_payload z at p m

  -- The slot at the old head holds the payload.
  pub payload_at-committed_self : payload_at z (committed n z p m) at ≡ p
  unfolding committed
  payload_at-committed_self =
      payload_at-set_field z idx_msg_count _ (moved n z p m) at (omega arith)
      ∙ payload_at-set_field z idx_head _ (put_payload z at p m) at (omega arith)
      ∙ payload_at-put_payload_self z at p m short inside

  -- The other slots hold what they held.
  pub payload_at-committed_ne :
      (i : ℕ) → i < n → at ≢ i → payload_at z (committed n z p m) i ≡ payload_at z m i
  unfolding committed
  payload_at-committed_ne i lt ne =
      payload_at-set_field z idx_msg_count _ (moved n z p m) i (omega arith)
      ∙ payload_at-set_field z idx_head _ (put_payload z at p m) i (omega arith)
      ∙ payload_at-put_payload_ne z at i p m ne room (sizes i lt)

  size_at-committed : (i : ℕ) → i < n → size_at z (committed n z p m) i + 4 ≤ z
  unfolding committed
  size_at-committed i lt =
      rw
        (
          size_at-set_field z idx_msg_count _ (moved n z p m) i (omega arith),
          size_at-set_field z idx_head _ (put_payload z at p m) i (omega arith),
        )
        (elim (ℕ_discrete at i) [
          | yes e ↦ rw (← e, size_at-put_payload_self z at p m short inside) room
          | no ne ↦ rw (size_at-put_payload_ne z at i p m ne room) (sizes i lt)
        ])

  -- A committed write keeps the segment well formed.
  pub committed-IsSegment : IsSegment n z (committed n z p m)
  committed-IsSegment = record {
    num_slots =
        get_field-committed idx_num_slots (omega arith) (omega arith) (omega arith) ∙ num_slots;
    slot_size =
        get_field-committed idx_slot_size (omega arith) (omega arith) (omega arith) ∙ slot_size;
    some_slot = some_slot;
    few = few;
    prefix = prefix;
    narrow = narrow;
    fits = omega (arith, size-committed);
    head_in = rw head-committed (succ_mod-lt at n head_in);
    tail_in = rw (get_field-committed idx_tail (omega arith) (omega arith) (omega arith)) tail_in;
    sizes = size_at-committed;
  }
