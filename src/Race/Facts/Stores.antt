-- ===== src/Race/Facts/Stores.antt =====
-- What a turn of the writer stores, whatever it was told about room.
use shm_comm.Prelude.{
  ℕ, ◌+◌, ◌%◌, ◌^◌, ◌≤◌, ◌≡◌, ◌⊎◌, inl, inr, refl, sym, ap, ap₂, ◌∙◌, Bool, true, false, List, [],
  ◌∷◌, length, arith, le→leb, lt→leb, lt→ltb, eq→==, ne→==, dec_le, ℕ_discrete, if◌then◌else◌,
}
use shm_comm.Exec.{ok}
use shm_comm.Memory.{Memory, encode_le}
use shm_comm.Memory.Words.{length-encode_le}
use shm_comm.Core.Header.{
  idx_head, idx_tail, idx_msg_count, idx_drop_count, idx_num_slots, idx_slot_size,
}
use shm_comm.Buffer.{slot_offset, pack_into, store_slice}
use shm_comm.Fifo.{Payload}
use shm_comm.Core.Header.{set_field}
use shm_comm.Buffer.Slots.{payload_at, size_at, slot_inside, slot_offset-le}
use shm_comm.Buffer.Patch.{
  patched, pack_into-patched, store_slice-patched, size-patched, get_field-patched,
  size_at-patched_ne, payload_at-patched_ne, size_at-patched_prefix, size_at-patched_payload,
  payload_at-patched_payload,
}
use shm_comm.Buffer.Segment.{IsSegment}
use shm_comm.Buffer.Queue.{head_of, tail_of}
use shm_comm.Race.{Locals, WriterPc, writer_turn, published}
use shm_comm.Race.Facts.{Fits, Free, WriterFactIn}
use shm_comm.Race.Facts.Calm.{Calm, set_field-Calm}

-- The head moves on over a slot that holds a payload.
pub record Publishes (R : ℕ → ℕ → Type 0) (n z : ℕ) (m : Memory) (pc : WriterPc)
    (r : WriterPc × Memory) : Type 0 where
  pub payload : Payload
  pub named : published pc ≡ payload ∷ []
  pub held : payload_at z m (head_of m) ≡ payload
  pub room : R (head_of m) (tail_of m)
  pub turn : r ≡ (WriterPc.counting, set_field idx_head ((head_of m + 1) % n) m)

-- A turn from `pc` on `m` stores nothing but in the slot at the head and in the counters, or it
-- publishes that slot.
abbrev pub Stepped : (R : ℕ → ℕ → Type 0) → ℕ → ℕ → Memory → WriterPc → WriterPc × Memory → Type 0
Stepped R n z m pc r =
    (Calm n z m r.1 × (published pc ≡ []) × WriterFactIn R n z r.1 r.0) ⊎ Publishes R n z m pc r

module _ (R : ℕ → ℕ → Type 0) {n z : ℕ} {m : Memory} (s : IsSegment n z m) where
  open s use {num_slots, slot_size, some_slot, few, prefix, narrow, fits, head_in, tail_in, sizes}

  same-Calm : Calm n z m m
  same-Calm = record {
    size = refl;
    num_slots = refl;
    slot_size = refl;
    head = refl;
    tail = refl;
    own_size = sizes (head_of m) head_in;
    sizes = λ j _ _. refl;
    payloads = λ j _ _. refl;
  }

  -- A turn that only reads, and publishes nothing.
  pub looked :
      (pc pc' : WriterPc)
      → published pc ≡ []
      → WriterFactIn R n z m pc'
      → Stepped R n z m pc (pc', m)
  looked pc pc' e f = inl (same-Calm, e, f)

  patch-Calm :
      (o : ℕ) (bs : List ℕ)
      → slot_offset (head_of m) z ≤ o
      → o + length bs ≤ slot_offset (head_of m) z + z
      → size_at z (patched o bs m) (head_of m) + 4 ≤ z
      → Calm n z m (patched o bs m)
  patch-Calm o bs lo hi own =
      let behind : 128 ≤ o = omega (arith, slot_offset-le (head_of m) z) in
      record {
        size = size-patched o bs m;
        num_slots = get_field-patched idx_num_slots o bs m (omega arith) behind;
        slot_size = get_field-patched idx_slot_size o bs m (omega arith) behind;
        head = get_field-patched idx_head o bs m (omega arith) behind;
        tail = get_field-patched idx_tail o bs m (omega arith) behind;
        own_size = own;
        sizes = λ j lt ne. size_at-patched_ne z (head_of m) j o bs m lo hi ne prefix;
        payloads = λ j lt ne. payload_at-patched_ne z (head_of m) j o bs m lo hi ne (sizes j lt);
      }

  in_slot : slot_offset (head_of m) z + z ≤ m.size
  in_slot = omega (arith, slot_inside (head_of m) n z head_in)

  module _ (l : Locals) (k : ℕ) (room : length l.payload + 4 ≤ z) where
    abbrev sized : Memory
    sized = patched (slot_offset (head_of m) z) (encode_le 4 (length l.payload)) m

    own_sized : size_at z sized (head_of m) ≡ length l.payload
    own_sized = size_at-patched_prefix z (head_of m) (length l.payload) m (omega arith)

    sized-Calm : Calm n z m sized
    sized-Calm =
        patch-Calm (slot_offset (head_of m) z) (encode_le 4 (length l.payload)) (omega arith)
          (omega (arith, length-encode_le 4 (length l.payload))) (omega (arith, own_sized))

    abbrev filled : Memory
    filled = patched (slot_offset (head_of m) z + 4) l.payload m

    filled-Calm : size_at z m (head_of m) ≡ length l.payload → Calm n z m filled
    filled-Calm e =
        patch-Calm (slot_offset (head_of m) z + 4) l.payload (omega arith) (omega arith)
          (omega (arith, size_at-patched_payload z (head_of m) l.payload m))

  next_of :
      (l : Locals) (h : ℕ)
      → Fits n z l
      → h ≡ head_of m
      → (h + 1) % l.num_slots ≡ (head_of m + 1) % n
  next_of l h fit e = ap₂ (λ (a b : ℕ). (a + 1) % b) e fit.0

  refused :
      (l : Locals) (h : ℕ)
      → Fits n z l
      → (b : Bool)
      → Stepped R n z m
          (WriterPc.compared l h)
          (if b then WriterPc.waiting l else WriterPc.dropping, m)
  refused l h fit true = looked (WriterPc.compared l h) (WriterPc.waiting l) refl fit
  refused l h fit false = looked (WriterPc.compared l h) WriterPc.dropping refl tt

  packed :
      (l : Locals) (h k : ℕ) (fit : Fits n z l)
      → h ≡ head_of m
      → pack_into (slot_offset h l.slot_size) (length l.payload) m ≡ (ok tt, sized l k fit.2)
  packed l h k fit e =
      ap (λ o. pack_into o (length l.payload) m) (ap₂ slot_offset e fit.1)
      ∙ pack_into-patched (slot_offset (head_of m) z) (length l.payload) m (omega arith)
          (omega (arith, in_slot))

  copied :
      (l : Locals) (h k : ℕ) (fit : Fits n z l)
      → h ≡ head_of m
      → store_slice (slot_offset h l.slot_size + 4) l.payload m ≡ (ok tt, filled l k fit.2)
  copied l h k fit e =
      ap (λ (o : ℕ). store_slice (o + 4) l.payload m) (ap₂ slot_offset e fit.1)
      ∙ store_slice-patched (slot_offset (head_of m) z + 4) l.payload m (omega (arith, in_slot))

  pub writer_turn-Stepped :
      ((h t : ℕ) → Free n h t → R h t)
      → (pc : WriterPc) → WriterFactIn R n z m pc
      → Stepped R n z m pc (writer_turn pc m)
  unfolding writer_turn
  writer_turn-Stepped give WriterPc.ready f = looked WriterPc.ready WriterPc.ready refl tt
  writer_turn-Stepped give (WriterPc.starting p b) f = elim (dec_le (length p + 4) z) [
    | yes room ↦
        rw (le→leb 128 m.size (omega arith), slot_size, le→leb (length p + 4) z room, num_slots)
          (looked (WriterPc.starting p b) _ refl (refl, refl, room))
    | no big ↦
        rw (le→leb 128 m.size (omega arith), slot_size, lt→leb (length p + 4) z (omega arith))
          (looked (WriterPc.starting p b) _ refl tt)
  ]
  writer_turn-Stepped give (WriterPc.looking l) f =
      looked (WriterPc.looking l) (WriterPc.compared l (head_of m)) refl (f, refl)
  writer_turn-Stepped give (WriterPc.compared l h) (fit, e) =
      elim (ℕ_discrete ((head_of m + 1) % n) (tail_of m)) [
        | yes full ↦
            rw
              (
                ne→== l.num_slots 0 (omega arith),
                eq→== ((h + 1) % l.num_slots) (tail_of m) (next_of l h fit e ∙ full),
              )
              (refused l h fit l.block)
        | no free ↦
            rw
              (
                ne→== l.num_slots 0 (omega arith),
                ne→== ((h + 1) % l.num_slots) (tail_of m) (λ q. free (sym (next_of l h fit e) ∙ q)),
              )
              (looked (WriterPc.compared l h) (WriterPc.filling l) refl (fit, give _ _ free))
      ]
  writer_turn-Stepped give (WriterPc.waiting l) f =
      looked (WriterPc.waiting l) (WriterPc.looking l) refl f
  writer_turn-Stepped give WriterPc.dropping f = inl (
    set_field-Calm idx_drop_count _ s (omega arith) (omega arith) (omega arith) (omega arith)
        (omega arith),
    refl,
    tt,
  )
  writer_turn-Stepped give (WriterPc.filling l) (fit, room) =
      rw (ne→== l.num_slots 0 (omega arith)) (
        looked (WriterPc.filling l) (WriterPc.placing l (head_of m) ((head_of m + 1) % l.num_slots))
          refl (fit, room, refl, next_of l (head_of m) fit refl))
  writer_turn-Stepped give (WriterPc.placing l h k) (fit, room, a, b) =
      let c : Calm n z m (sized l k fit.2) = sized-Calm l k fit.2 in
      rw (packed l h k fit a)
        (inl (c, refl, rw (c.head, c.tail) (fit, room, a, b, own_sized l k fit.2)))
  writer_turn-Stepped give (WriterPc.copying l h k) (fit, room, a, b, e) =
      let c : Calm n z m (filled l k fit.2) = filled-Calm l k fit.2 e in
      rw (copied l h k fit a) (
        inl (
          c,
          refl,
          rw (c.head, c.tail)
              (
                fit,
                room,
                b,
                payload_at-patched_payload z (head_of m) l.payload m e (omega (arith, in_slot)),
              ),
        ))
  writer_turn-Stepped give (WriterPc.publishing l k) (fit, room, b, e) =
      rw (b, lt→ltb ((head_of m + 1) % n) (2 ^ 63) (omega arith))
        (inr (record { payload = l.payload; named = refl; held = e; room = room; turn = refl }))
  writer_turn-Stepped give WriterPc.counting f = inl (
    set_field-Calm idx_msg_count _ s (omega arith) (omega arith) (omega arith) (omega arith)
        (omega arith),
    refl,
    tt,
  )
  writer_turn-Stepped give WriterPc.failed f = absurd f
