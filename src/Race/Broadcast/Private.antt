-- ===== src/Race/Broadcast/Private.antt =====
-- A writer that respects the tail, and readers that never move it: one direction of request/reply.
use shm_comm.Prelude.{
  ℕ, suc, ◌+◌, ◌%◌, ◌<◌, ◌≡◌, ◌≢◌, inl, inr, refl, sym, ap, subst, ◌∙◌, true, false, List, [], ◌∷◌,
  ◌++◌, append-nil, length, length-append, drop, arith, eq→==, ne→==, lt→ltb, ℕ_discrete,
}
use shm_comm.Prelude.Remainder.{mod-once}
use shm_comm.Memory.{Memory}
use shm_comm.Buffer.Segment.{IsSegment}
use shm_comm.Buffer.Queue.{head_of, tail_of}
use shm_comm.Race.{WriterPc, published}
use shm_comm.Race.Facts.{Free}
use shm_comm.Race.Facts.Cursors.{tail-advanced}
use shm_comm.Race.Facts.Stores.{Stepped}
use shm_comm.Race.Broadcast.{
  WatcherPc, Watcher, Broadcast, Event, submit, write, expire, subscribe, poll, watch, any_turn,
  step, run,
}
use shm_comm.Race.Broadcast.Places.{slot_of, slot_of-suc}
use shm_comm.Race.Broadcast.Reading.{place, Follows}
use shm_comm.Race.Broadcast.Following.{
  Serves, write-Stepped, step-Serves, run-Serves, start-Serves, near, keeps_up, start,
  start-Follows, run-Follows, reading, writing,
}

-- The tail stays where it was, and the ring never holds all its slots' worth.
pub record Short (n base : ℕ) (s : Broadcast) : Type 0 where
  pub tail : tail_of s.memory ≡ base
  pub short : length s.sent < n

module _ {n z base : ℕ} {s : Broadcast} (in_ring : base < n) (v : Serves false n z base s)
    (b : Short n base s) where
  one_more :
      (p : List ℕ) → Free n (head_of s.memory) (tail_of s.memory) → length (s.sent ++ p ∷ []) < n
  one_more p free = elim (ℕ_discrete (suc (length s.sent)) n) [
    | yes last ↦ absurd (
        free (
          ap (λ (h : ℕ). (h + 1) % n) v.held.head
          ∙ slot_of-suc n base (length s.sent)
          ∙ ap (slot_of n base) last
          ∙ mod-once (base + n) n (omega arith) (omega arith)
          ∙ omega arith
          ∙ sym b.tail))
    | no other ↦ omega (arith, b.short, length-append s.sent (p ∷ []))
  ]

  written :
      (r : WriterPc × Memory)
      → Stepped (Free n) n z s.memory s.writer r
      → (tail_of r.1 ≡ base) × (length (s.sent ++ published s.writer) < n)
  written r (inl (c, e, f)) = (c.tail ∙ b.tail, rw (e, append-nil) b.short)
  written r (inr p) = (
    ap (λ (x : WriterPc × Memory). tail_of x.1) p.turn ∙ tail-advanced v.held.segment ∙ b.tail,
    subst (λ ps. length (s.sent ++ ps) < n) (sym p.named) (one_more p.payload p.room),
  )

  step-Short : (e : Event) → Short n base (step false e s)
  unfolding step
  step-Short (submit p c) = record { tail = b.tail; short = b.short }
  step-Short write =
      let w = written (any_turn false s.writer s.memory) (write-Stepped v) in
      record { tail = w.0; short = w.1 }
  step-Short expire = record { tail = b.tail; short = b.short }
  step-Short (subscribe i) = record { tail = b.tail; short = b.short }
  step-Short (poll i) = record { tail = b.tail; short = b.short }
  step-Short (watch i) = record { tail = b.tail; short = b.short }

near-Short : {n base : ℕ} {s : Broadcast} (i : ℕ) (e : Event) → Short n base s → near n i e s ≡ true
near-Short i (submit p c) b = refl
near-Short i write b = refl
near-Short i expire b = refl
near-Short i (subscribe j) b = refl
near-Short i (poll j) b = refl
near-Short {n} {base} {s} i (watch j) b = elim (ℕ_discrete j i) [
  | yes e ↦ rw (eq→== j i e) (lt→ltb _ _ (omega (arith, b.short)))
  | no ne ↦ rw (ne→== j i ne) refl
]

run-Short :
    {n z base : ℕ} (es : List Event) (i : ℕ) {s : Broadcast}
    → base < n
    → Serves false n z base s
    → Short n base s
    → Short n base (run false es s) × (keeps_up false n i es s ≡ true)
unfolding run keeps_up
run-Short [] i in_ring v b = (b, refl)
run-Short (e ∷ es) i in_ring v b =
    let r = run-Short es i in_ring (step-Serves v e) (step-Short in_ring v b e) in
    (r.0, rw (near-Short i e b) r.1)

module _ {n z : ℕ} {m : Memory} (s : IsSegment n z m) (e : head_of m ≡ tail_of m) (es : List Event)
    (i : ℕ) where
  abbrev after : Broadcast
  after = run false es (start m)

  abbrev reader : Watcher
  reader = after.watchers i

  -- From a well-formed segment of n slots, with nobody in a call and the cursor of every reader
  -- at the head, which is also the tail, after any sequence of turns of one process that writes
  -- and of any number of readers with private cursors, which may also take a new cursor from
  -- the head between two reads, where a turn is one access to the shared head, tail or slot,
  -- and the writer respects the tail: every reader, however slow, has received the publications
  -- since it took its cursor, in order and whole, up to those that are still to come; but fewer
  -- than n were published in all, since the tail never moves; and neither a reader nor the
  -- writer stands where an exception would have left it, other than the errors for a payload
  -- that is too large and for a deadline that has passed.
  pub received_in_order_unless_full :
      (drop reader.joined after.sent
        ≡ reader.received ++ drop (reader.joined + length reader.received) after.sent)
      × (length after.sent < n)
      × (tail_of after.memory ≡ tail_of m)
      × (reader.pc ≢ WatcherPc.failed)
      × (after.writer ≢ WriterPc.failed)
  received_in_order_unless_full =
      let v : Serves false n z (head_of m) after = run-Serves es (start-Serves s false) in
      let b =
        run-Short es i s.head_in (start-Serves s false)
          (record { tail = sym e; short = s.some_slot }) in
      let f : Follows n z (head_of m) after.sent reader =
        run-Follows es i (start-Serves s false) (start-Follows s i) b.1 in
      (
        f.order,
        b.0.short,
        b.0.tail ∙ e,
        reading n z (head_of m) (place reader) after.sent _ f.knows,
        writing (Free n) n z after.memory _ v.writer_knows,
      )
