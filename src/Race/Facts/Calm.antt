-- ===== src/Race/Facts/Calm.antt =====
-- Stores that move neither cursor and write no slot but the one at the head: the counters, and the two
-- halves of `_write_slot`.
use shm_comm.Prelude.{ℕ, ◌+◌, ◌≤◌, ◌<◌, ◌≡◌, sym, ◌∙◌, ◌≢◌, arith, ℕ_discrete}
use shm_comm.Memory.{Memory}
use shm_comm.Core.Header.{idx_head, idx_tail, idx_num_slots, idx_slot_size, get_field, set_field}
use shm_comm.Core.Fields.{get_field-set_field_ne, size-set_field}
use shm_comm.Ring.{window_ext_ne}
use shm_comm.Ring.Cursor.{ahead, ahead-lt}
use shm_comm.Ring.Distance.{ahead-add}
use shm_comm.Buffer.Slots.{size_at, payload_at, size_at-set_field, payload_at-set_field}
use shm_comm.Buffer.Segment.{IsSegment}
use shm_comm.Buffer.Queue.{head_of, tail_of, contents}
use shm_comm.Race.{ReaderPc}
use shm_comm.Race.Facts.{ReaderFact}

pub record Calm (n z : ℕ) (m m' : Memory) : Type 0 where
  pub size : m'.size ≡ m.size
  pub num_slots : get_field idx_num_slots m' ≡ get_field idx_num_slots m
  pub slot_size : get_field idx_slot_size m' ≡ get_field idx_slot_size m
  pub head : head_of m' ≡ head_of m
  pub tail : tail_of m' ≡ tail_of m
  pub own_size : size_at z m' (head_of m) + 4 ≤ z
  pub sizes : (j : ℕ) → j < n → head_of m ≢ j → size_at z m' j ≡ size_at z m j
  pub payloads : (j : ℕ) → j < n → head_of m ≢ j → payload_at z m' j ≡ payload_at z m j

module _ {n z : ℕ} {m m' : Memory} (s : IsSegment n z m) (c : Calm n z m m') where
  pub Calm-IsSegment : IsSegment n z m'
  Calm-IsSegment = record {
    num_slots = c.num_slots ∙ s.num_slots;
    slot_size = c.slot_size ∙ s.slot_size;
    some_slot = s.some_slot;
    few = s.few;
    prefix = s.prefix;
    narrow = s.narrow;
    fits = omega (arith, s.fits, c.size);
    head_in = omega (arith, s.head_in, c.head);
    tail_in = omega (arith, s.tail_in, c.tail);
    sizes = λ j lt. elim (ℕ_discrete (head_of m) j) [
      | yes e ↦ rw (← e) c.own_size
      | no ne ↦ rw (c.sizes j lt ne) (s.sizes j lt)
    ];
  }

  pub Calm-contents : contents n z m' ≡ contents n z m
  unfolding contents
  Calm-contents =
      rw (c.head, c.tail)
        (window_ext_ne (payload_at z m) (payload_at z m') n (ahead n (head_of m) (tail_of m))
          (tail_of m) (head_of m) s.tail_in (ahead-lt n (head_of m) (tail_of m) s.head_in)
          (sym (ahead-add n (head_of m) (tail_of m) s.head_in s.tail_in)) c.payloads)

  -- What a reader knows stays true: the slot at the tail is not the one at the head.
  pub Calm-ReaderFact : (pc : ReaderPc) → ReaderFact n z m pc → ReaderFact n z m' pc
  Calm-ReaderFact ReaderPc.resting f = tt
  Calm-ReaderFact ReaderPc.entered f = tt
  Calm-ReaderFact (ReaderPc.saw_head h) f = rw (c.head, c.tail) f
  Calm-ReaderFact (ReaderPc.chosen l) f = rw (c.head, c.tail) f
  Calm-ReaderFact (ReaderPc.sized l k) (at, e) =
      rw (c.head, c.tail) (at, e ∙ sym (c.sizes (tail_of m) s.tail_in (λ q. at.3 (sym q))))
  Calm-ReaderFact (ReaderPc.moving l p) (at, e) =
      rw (c.head, c.tail) (at, e ∙ sym (c.payloads (tail_of m) s.tail_in (λ q. at.3 (sym q))))
  Calm-ReaderFact (ReaderPc.leaving r) f = tt
  Calm-ReaderFact ReaderPc.failed f = f

-- A counter's word.
pub set_field-Calm :
    {n z : ℕ} {m : Memory} (k v : ℕ)
    → IsSegment n z m
    → k < 16
    → k ≢ idx_head
    → k ≢ idx_tail
    → k ≢ idx_num_slots
    → k ≢ idx_slot_size
    → Calm n z m (set_field k v m)
set_field-Calm {n} {z} {m} k v s lt nh nt nn ns = record {
  size = size-set_field k v m;
  num_slots = get_field-set_field_ne k idx_num_slots v m nn;
  slot_size = get_field-set_field_ne k idx_slot_size v m ns;
  head = get_field-set_field_ne k idx_head v m nh;
  tail = get_field-set_field_ne k idx_tail v m nt;
  own_size = rw (size_at-set_field z k v m (head_of m) lt) (s.sizes (head_of m) s.head_in);
  sizes = λ j _ _. size_at-set_field z k v m j lt;
  payloads = λ j _ _. payload_at-set_field z k v m j lt;
}
