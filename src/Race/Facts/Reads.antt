-- ===== src/Race/Facts/Reads.antt =====
-- A turn of a reader that holds the lock.
use shm_comm.Prelude.{
  ℕ, ◌+◌, ◌%◌, ◌^◌, ◌≤◌, ◌<◌, ◌≡◌, refl, ap, ap₂, ◌≢◌, none, [], ◌++◌, arith, le→leb, lt→ltb, eq→==,
  ne→==, ℕ_discrete,
}
use shm_comm.Exec.{ok, py_mod}
use shm_comm.Memory.{Memory}
use shm_comm.Core.Header.{assign}
use shm_comm.Ring.Cursor.{ahead}
use shm_comm.Ring.Distance.{ahead-eq_zero, ahead_self}
use shm_comm.Buffer.{slot_offset, unpack_from, load_slice}
use shm_comm.Buffer.Slots.{size_at, payload_at, slot_inside}
use shm_comm.Buffer.Segment.{IsSegment}
use shm_comm.Buffer.Fields.{claimed, claimed-IsSegment}
use shm_comm.Buffer.Queue.{head_of, tail_of, contents, contents-claimed}
use shm_comm.Race.{Place, WriterPc, ReaderPc, move_tail, reader_turn, removed}
use shm_comm.Race.Facts.{AtTail, WriterFact, ReaderFact}
use shm_comm.Race.Facts.Cursors.{claimed-WriterFact}

-- What a turn from `pc` on `m` leaves behind.
pub record Took (n z : ℕ) (m : Memory) (pc : ReaderPc) (r : ReaderPc × Memory) : Type 0 where
  pub segment : IsSegment n z r.1
  pub shrunk : contents n z m ≡ removed pc ++ contents n z r.1
  pub knows : ReaderFact n z r.1 r.0
  pub writer : (pc' : WriterPc) → WriterFact n z m pc' → WriterFact n z r.1 pc'

module _ {n z : ℕ} {m : Memory} (s : IsSegment n z m) where
  open s use {num_slots, slot_size, some_slot, few, prefix, fits, head_in, tail_in}

  looked : (pc pc' : ReaderPc) → removed pc ≡ [] → ReaderFact n z m pc' → Took n z m pc (pc', m)
  looked pc pc' e f = record { segment = s; shrunk = rw e refl; knows = f; writer = λ _ g. g }

  -- The head that was seen is not at the tail, so there is a message, also if the head has moved on.
  still_some :
      (h : ℕ)
      → h < n
      → ahead n h (tail_of m) ≤ ahead n (head_of m) (tail_of m)
      → tail_of m ≢ h
      → tail_of m ≢ head_of m
  still_some h lt le ne q = ne (
      ahead-eq_zero n h (tail_of m) lt tail_in
        (omega (arith, ap (ahead n (head_of m)) q, ahead_self n (head_of m) head_in)))

  module _ (l : Place) (at : AtTail n z m l) where
    offset : slot_offset l.tail l.slot_size ≡ slot_offset (tail_of m) z
    offset = ap₂ slot_offset at.0 at.2

    unpacked : unpack_from (slot_offset l.tail l.slot_size) m ≡ (ok (size_at z m (tail_of m)), m)
    unfolding unpack_from size_at
    unpacked = rw (
      offset,
      le→leb (slot_offset (tail_of m) z + 4) m.size
          (omega (arith, slot_inside (tail_of m) n z tail_in)),
    )

    loaded :
        (k : ℕ)
        → k ≡ size_at z m (tail_of m)
        → load_slice (slot_offset l.tail l.slot_size + 4) k m ≡ (ok (payload_at z m (tail_of m)), m)
    unfolding load_slice payload_at
    loaded k e = rw (offset, e)

    moved : move_tail l m ≡ (ok tt, claimed n m)
    unfolding claimed py_mod assign
    moved =
        let e : (l.tail + 1) % l.num_slots ≡ (tail_of m + 1) % n =
          ap₂ (λ (a b : ℕ). (a + 1) % b) at.0 at.1 in
        rw (
          ne→== l.num_slots 0 (omega arith),
          e,
          lt→ltb ((tail_of m + 1) % n) (2 ^ 63) (omega arith),
        )

  pub reader_turn-Took : (pc : ReaderPc) → ReaderFact n z m pc → Took n z m pc (reader_turn pc m)
  unfolding reader_turn
  reader_turn-Took ReaderPc.resting f = looked ReaderPc.resting ReaderPc.resting refl tt
  reader_turn-Took ReaderPc.entered f =
      rw (le→leb 128 m.size (omega arith))
        (looked ReaderPc.entered (ReaderPc.saw_head (head_of m)) refl (head_in, omega arith))
  reader_turn-Took (ReaderPc.saw_head h) (lt, le) = elim (ℕ_discrete (tail_of m) h) [
    | yes e ↦
        rw (eq→== (tail_of m) h e) (looked (ReaderPc.saw_head h) (ReaderPc.leaving none) refl tt)
    | no ne ↦
        rw (ne→== (tail_of m) h ne)
          (looked (ReaderPc.saw_head h) _ refl (refl, num_slots, slot_size, still_some h lt le ne))
  ]
  reader_turn-Took (ReaderPc.chosen l) at =
      rw (unpacked l at)
        (looked (ReaderPc.chosen l) (ReaderPc.sized l (size_at z m (tail_of m))) refl (at, refl))
  reader_turn-Took (ReaderPc.sized l k) (at, e) =
      rw (loaded l at k e) (
        looked (ReaderPc.sized l k) (ReaderPc.moving l (payload_at z m (tail_of m))) refl
          (at, refl))
  reader_turn-Took (ReaderPc.moving l p) (at, e) = rw (moved l at) (record {
    segment = claimed-IsSegment s;
    shrunk = rw e (contents-claimed s at.3);
    knows = tt;
    writer = claimed-WriterFact s at.3;
  })
  reader_turn-Took (ReaderPc.leaving r) f = looked (ReaderPc.leaving r) (ReaderPc.leaving r) refl tt
  reader_turn-Took ReaderPc.failed f = absurd f
