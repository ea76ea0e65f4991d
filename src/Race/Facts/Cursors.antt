-- ===== src/Race/Facts/Cursors.antt =====
-- The two stores that move a cursor: publishing a slot, and claiming one.
use shm_comm.Prelude.{ℕ, suc, ◌+◌, ◌%◌, ◌≡◌, sym, ◌∙◌, ◌≢◌, [], ◌∷◌, ◌++◌, arith}
use shm_comm.Prelude.Remainder.{succ_mod-lt}
use shm_comm.Memory.{Memory}
use shm_comm.Core.Header.{idx_head, idx_tail, idx_num_slots, idx_slot_size, set_field}
use shm_comm.Core.Fields.{get_field-set_field_self, get_field-set_field_ne, size-set_field}
use shm_comm.Ring.{window_snoc}
use shm_comm.Ring.Cursor.{ahead, ahead-lt}
use shm_comm.Ring.Distance.{ahead-add, ahead-advance, ahead-full, ahead-claim}
use shm_comm.Buffer.Slots.{size_at, payload_at, size_at-set_field, payload_at-set_field}
use shm_comm.Buffer.Segment.{IsSegment}
use shm_comm.Buffer.Fields.{claimed, tail-claimed}
use shm_comm.Buffer.Queue.{head_of, tail_of, contents}
use shm_comm.Race.{WriterPc, ReaderPc}
use shm_comm.Race.Facts.{HasRoom, WriterFact, ReaderFact}

module _ {n z : ℕ} {m : Memory} (s : IsSegment n z m) where
  open s use {some_slot, few, head_in, tail_in}

  abbrev pub advanced : Memory
  advanced = set_field idx_head ((head_of m + 1) % n) m

  pub head-advanced : head_of advanced ≡ (head_of m + 1) % n
  head-advanced = get_field-set_field_self idx_head ((head_of m + 1) % n) m (omega arith)

  pub tail-advanced : tail_of advanced ≡ tail_of m
  tail-advanced = get_field-set_field_ne idx_head idx_tail _ m (omega arith)

  pub advanced-IsSegment : IsSegment n z advanced
  advanced-IsSegment = record {
    num_slots = get_field-set_field_ne idx_head idx_num_slots _ m (omega arith) ∙ s.num_slots;
    slot_size = get_field-set_field_ne idx_head idx_slot_size _ m (omega arith) ∙ s.slot_size;
    some_slot = some_slot;
    few = few;
    prefix = s.prefix;
    narrow = s.narrow;
    fits = omega (arith, s.fits, size-set_field idx_head ((head_of m + 1) % n) m);
    head_in = rw head-advanced (succ_mod-lt (head_of m) n head_in);
    tail_in = rw tail-advanced tail_in;
    sizes = λ j lt. rw (size_at-set_field z idx_head _ m j (omega arith)) (s.sizes j lt);
  }

module _ {n z : ℕ} {m : Memory} (s : IsSegment n z m) (room : HasRoom n m) where
  open s use {head_in, tail_in}

  longer : ahead n ((head_of m + 1) % n) (tail_of m) ≡ suc (ahead n (head_of m) (tail_of m))
  longer = ahead-advance n (head_of m) (tail_of m) head_in tail_in room

  pub contents-advanced :
      contents n z (advanced s) ≡ contents n z m ++ payload_at z m (head_of m) ∷ []
  unfolding contents
  contents-advanced =
      rw (head-advanced s, tail-advanced s, longer)
        (window_snoc (payload_at z m) (payload_at z (advanced s)) (payload_at z m (head_of m)) n
          (ahead n (head_of m) (tail_of m)) (tail_of m) (head_of m) tail_in
          (ahead-lt n (head_of m) (tail_of m) head_in)
          (sym (ahead-add n (head_of m) (tail_of m) head_in tail_in))
          (λ j lt ne. payload_at-set_field z idx_head _ m j (omega arith))
          (payload_at-set_field z idx_head _ m (head_of m) (omega arith)))

  pub advanced-ReaderFact : (pc : ReaderPc) → ReaderFact n z m pc → ReaderFact n z (advanced s) pc
  advanced-ReaderFact ReaderPc.resting f = tt
  advanced-ReaderFact ReaderPc.entered f = tt
  advanced-ReaderFact (ReaderPc.saw_head h) (lt, le) =
      rw (head-advanced s, tail-advanced s) (lt, omega (arith, longer))
  advanced-ReaderFact (ReaderPc.chosen l) (a, b, c, ne) =
      rw (head-advanced s, tail-advanced s) (a, b, c, λ q. room (sym q))
  advanced-ReaderFact (ReaderPc.sized l k) ((a, b, c, ne), e) =
      rw (head-advanced s, tail-advanced s)
        ((a, b, c, λ q. room (sym q)), e ∙ sym (size_at-set_field z idx_head _ m _ (omega arith)))
  advanced-ReaderFact (ReaderPc.moving l p) ((a, b, c, ne), e) =
      rw (head-advanced s, tail-advanced s)
        (
          (a, b, c, λ q. room (sym q)),
          e ∙ sym (payload_at-set_field z idx_head _ m _ (omega arith)),
        )
  advanced-ReaderFact (ReaderPc.leaving r) f = tt
  advanced-ReaderFact ReaderPc.failed f = f

module _ {n z : ℕ} {m : Memory} (s : IsSegment n z m) where
  open s use {some_slot, few, head_in, tail_in}

  pub head-claimed_lem : head_of (claimed n m) ≡ head_of m
  unfolding claimed
  head-claimed_lem = get_field-set_field_ne idx_tail idx_head _ m (omega arith)

  -- A claim makes room, and takes none away.
  HasRoom-claimed : tail_of m ≢ head_of m → (head_of m + 1) % n ≢ (tail_of m + 1) % n
  HasRoom-claimed ne q = omega (
    arith,
    ahead-claim n (head_of m) (tail_of m) head_in tail_in ne,
    ahead-full n (head_of m) ((tail_of m + 1) % n) head_in (succ_mod-lt (tail_of m) n tail_in) q,
    ahead-lt n (head_of m) (tail_of m) head_in,
  )

  size_at-claimed_lem : (j : ℕ) → size_at z (claimed n m) j ≡ size_at z m j
  unfolding claimed
  size_at-claimed_lem j = size_at-set_field z idx_tail _ m j (omega arith)

  payload_at-claimed_lem : (j : ℕ) → payload_at z (claimed n m) j ≡ payload_at z m j
  unfolding claimed
  payload_at-claimed_lem j = payload_at-set_field z idx_tail _ m j (omega arith)

  pub claimed-WriterFact :
      tail_of m ≢ head_of m
      → (pc : WriterPc) → WriterFact n z m pc
      → WriterFact n z (claimed n m) pc
  claimed-WriterFact ne WriterPc.ready f = tt
  claimed-WriterFact ne (WriterPc.starting p b) f = tt
  claimed-WriterFact ne (WriterPc.looking l) f = f
  claimed-WriterFact ne (WriterPc.compared l h) f = rw head-claimed_lem f
  claimed-WriterFact ne (WriterPc.waiting l) f = f
  claimed-WriterFact ne WriterPc.dropping f = tt
  claimed-WriterFact ne (WriterPc.filling l) (fit, room) =
      rw (head-claimed_lem, tail-claimed s) (fit, HasRoom-claimed ne)
  claimed-WriterFact ne (WriterPc.placing l h k) (fit, room, a, b) =
      rw (head-claimed_lem, tail-claimed s) (fit, HasRoom-claimed ne, a, b)
  claimed-WriterFact ne (WriterPc.copying l h k) (fit, room, a, b, e) =
      rw (head-claimed_lem, tail-claimed s, size_at-claimed_lem (head_of m))
        (fit, HasRoom-claimed ne, a, b, e)
  claimed-WriterFact ne (WriterPc.publishing l k) (fit, room, b, e) =
      rw (head-claimed_lem, tail-claimed s, payload_at-claimed_lem (head_of m))
        (fit, HasRoom-claimed ne, b, e)
  claimed-WriterFact ne WriterPc.counting f = tt
  claimed-WriterFact ne WriterPc.failed f = f
