-- ===== src/Race/Safety.antt =====
-- What holds in every state that the processes can reach.
use shm_comm.Prelude.{
  ℕ, ◌≡◌, refl, sym, ap, subst, ◌∙◌, ◌≢◌, Bool, true, false, Option, none, some, List, [], ◌∷◌,
  ◌++◌, append_assoc, eq→==, ne→==, ℕ_discrete, Bool-cases, inl, inr,
}
use shm_comm.Memory.{Memory}
use shm_comm.Fifo.{Payload}
use shm_comm.Buffer.Segment.{IsSegment}
use shm_comm.Buffer.Queue.{contents}
use shm_comm.Race.{
  WriterPc, ReaderPc, Race, Event, submit, write, expire, read, submitted, timed_out, update,
  lock_for, reader_turn, removed, turn_of, read_by, step, run, writer_turn, published,
}
use shm_comm.Race.Facts.{WriterFact, ReaderFact, critical, Inv}
use shm_comm.Race.Facts.Writes.{Wrote, writer_turn-Wrote}
use shm_comm.Race.Facts.Reads.{Took, reader_turn-Took}

submitted-WriterFact :
    (n z : ℕ) (m : Memory) (p : Payload) (b : Bool) (pc : WriterPc)
    → WriterFact n z m pc
    → WriterFact n z m (submitted p b pc)
submitted-WriterFact n z m p b WriterPc.ready f = tt
submitted-WriterFact n z m p b (WriterPc.starting q c) f = f
submitted-WriterFact n z m p b pc f = f

timed_out-WriterFact :
    (n z : ℕ) (m : Memory) (pc : WriterPc) → WriterFact n z m pc → WriterFact n z m (timed_out pc)
timed_out-WriterFact n z m (WriterPc.waiting l) f = tt
timed_out-WriterFact n z m pc f = f

outside-ReaderFact :
    (n z : ℕ) (m : Memory) (pc : ReaderPc) → critical pc ≡ false → ReaderFact n z m pc
outside-ReaderFact n z m ReaderPc.resting h = tt
outside-ReaderFact n z m pc h = cc

update_self : (f : ℕ → ReaderPc) (i : ℕ) (pc : ReaderPc) → update f i pc i ≡ pc
update_self f i pc = rw (eq→== i i refl)

update_ne : (f : ℕ → ReaderPc) (i j : ℕ) (pc : ReaderPc) → i ≢ j → update f i pc j ≡ f j
update_ne f i j pc ne = rw (ne→== i j ne)

-- What holds of the new reader and of all others holds of every reader.
update-all :
    (P : ℕ → ReaderPc → Type 0) (f : ℕ → ReaderPc) (i : ℕ) (pc : ReaderPc)
    → P i pc
    → ((j : ℕ) → i ≢ j → P j (f j))
    → (j : ℕ) → P j (update f i pc j)
update-all P f i pc h all j = elim (ℕ_discrete i j) [
  | yes e ↦ rw (← e, update_self f i pc) h
  | no ne ↦ rw (update_ne f i j pc ne) (all j ne)
]

module _ {n z : ℕ} {s : Race} (v : Inv n z s) (i : ℕ) where
  open v use {segment, split, writer_knows, reader_knows, owner}

  -- While reader `i` has the lock, the others are outside.
  outside : critical (s.readers i) ≡ true → (j : ℕ) → i ≢ j → critical (s.readers j) ≡ false
  outside mine j ne = elim (Bool-cases (critical (s.readers j))) [
    | inl theirs ↦ absurd (ne (cc (owner i mine, owner j theirs)))
    | inr out ↦ out
  ]

  lock_for-Inv :
      (h : Option ℕ) → s.holder ≡ h → s.readers i ≡ ReaderPc.resting → Inv n z (lock_for i h s)
  lock_for-Inv none e rest = record {
    segment = segment;
    split = split;
    writer_knows = writer_knows;
    reader_knows =
        update-all (λ _ pc. ReaderFact n z s.memory pc) s.readers i ReaderPc.entered tt
          (λ j _. reader_knows j);
    owner =
        update-all (λ j pc. critical pc ≡ true → some i ≡ some j) s.readers i ReaderPc.entered
          (λ _. refl) (λ j _ theirs. cc (owner j theirs, e));
  }
  lock_for-Inv (some h) e rest = v

  left-Inv :
      critical (s.readers i) ≡ true
      → Inv n z (record s { holder = none; readers = update s.readers i ReaderPc.resting })
  left-Inv mine = record {
    segment = segment;
    split = split;
    writer_knows = writer_knows;
    reader_knows =
        update-all (λ _ pc. ReaderFact n z s.memory pc) s.readers i ReaderPc.resting tt
          (λ j _. reader_knows j);
    owner =
        update-all (λ j pc. critical pc ≡ true → none ≡ some j) s.readers i ReaderPc.resting
          (λ e. cc) (λ j ne theirs. cc (outside mine j ne));
  }

  turn_of-Inv : (pc : ReaderPc) → s.readers i ≡ pc → critical pc ≡ true → Inv n z (turn_of i pc s)
  turn_of-Inv pc e mine =
      let t : Took n z s.memory pc (reader_turn pc s.memory) =
        reader_turn-Took segment pc (rw (← e) (reader_knows i)) in
      let inside : critical (s.readers i) ≡ true = ap critical e ∙ mine in
      record {
        segment = t.segment;
        split =
            split
            ∙ ap (λ c. s.taken ++ c) t.shrunk
            ∙ sym (append_assoc s.taken (removed pc) (contents n z (reader_turn pc s.memory).1));
        writer_knows = t.writer s.writer writer_knows;
        reader_knows =
            update-all (λ _ pc'. ReaderFact n z (reader_turn pc s.memory).1 pc') s.readers i
              (reader_turn pc s.memory).0 t.knows
              (λ j ne.
                outside-ReaderFact n z (reader_turn pc s.memory).1 (s.readers j)
                  (outside inside j ne));
        owner =
            update-all (λ j pc'. critical pc' ≡ true → s.holder ≡ some j) s.readers i
              (reader_turn pc s.memory).0 (λ _. owner i inside) (λ j ne. owner j);
      }

  read_by-Inv : (pc : ReaderPc) → s.readers i ≡ pc → Inv n z (read_by i pc s)
  read_by-Inv ReaderPc.resting e = lock_for-Inv s.holder refl e
  read_by-Inv (ReaderPc.leaving r) e = left-Inv (ap critical e)
  read_by-Inv ReaderPc.entered e = turn_of-Inv ReaderPc.entered e refl
  read_by-Inv (ReaderPc.saw_head h) e = turn_of-Inv (ReaderPc.saw_head h) e refl
  read_by-Inv (ReaderPc.chosen l) e = turn_of-Inv (ReaderPc.chosen l) e refl
  read_by-Inv (ReaderPc.sized l k) e = turn_of-Inv (ReaderPc.sized l k) e refl
  read_by-Inv (ReaderPc.moving l p) e = turn_of-Inv (ReaderPc.moving l p) e refl
  read_by-Inv ReaderPc.failed e = turn_of-Inv ReaderPc.failed e refl

step-Inv : {n z : ℕ} {s : Race} → Inv n z s → (e : Event) → Inv n z (step e s)
unfolding step
step-Inv {n} {z} {s} v (submit p b) = record {
  segment = v.segment;
  split = v.split;
  writer_knows = submitted-WriterFact n z s.memory p b s.writer v.writer_knows;
  reader_knows = v.reader_knows;
  owner = v.owner;
}
step-Inv {n} {z} {s} v write =
    let w : Wrote n z s.memory s.writer (writer_turn s.writer s.memory) =
      writer_turn-Wrote v.segment s.writer v.writer_knows in
    record {
      segment = w.segment;
      split =
          ap (λ q. q ++ published s.writer) v.split
          ∙ append_assoc s.taken (contents n z s.memory) (published s.writer)
          ∙ ap (λ c. s.taken ++ c) (sym w.grown);
      writer_knows = w.knows;
      reader_knows = λ i. w.others (s.readers i) (v.reader_knows i);
      owner = v.owner;
    }
step-Inv {n} {z} {s} v expire = record {
  segment = v.segment;
  split = v.split;
  writer_knows = timed_out-WriterFact n z s.memory s.writer v.writer_knows;
  reader_knows = v.reader_knows;
  owner = v.owner;
}
step-Inv {s = s} v (read i) = read_by-Inv v i (s.readers i) refl

pub run-Inv : {n z : ℕ} (es : List Event) {s : Race} → Inv n z s → Inv n z (run es s)
unfolding run
run-Inv [] v = v
run-Inv (e ∷ es) v = run-Inv es (step-Inv v e)

-- Before any turn: nobody has the lock, and the ring is a new one.
abbrev pub start : Memory → Race
start m = record {
  memory = m;
  holder = none;
  writer = WriterPc.ready;
  readers = λ i. ReaderPc.resting;
  sent = [];
  taken = [];
}

start-Inv : {n z : ℕ} {m : Memory} → IsSegment n z m → contents n z m ≡ [] → Inv n z (start m)
start-Inv s e = record {
  segment = s;
  split = sym e;
  writer_knows = tt;
  reader_knows = λ i. tt;
  owner = λ i h. cc;
}

module _ {n z : ℕ} {m : Memory} (s : IsSegment n z m) (e : contents n z m ≡ [])
    (es : List Event) where
  after : Inv n z (run es (start m))
  after = run-Inv es (start-Inv s e)

  failing_writer :
      (pc : WriterPc) → WriterFact n z (run es (start m)).memory pc → pc ≢ WriterPc.failed
  failing_writer pc f q = subst (WriterFact n z (run es (start m)).memory) q f

  failing_reader :
      (pc : ReaderPc) → ReaderFact n z (run es (start m)).memory pc → pc ≢ ReaderPc.failed
  failing_reader pc f q = subst (ReaderFact n z (run es (start m)).memory) q f

  -- From a well-formed segment whose ring is empty, with nobody in a call and the lock free,
  -- after any sequence of turns of one process that writes (nonblocking or blocking, in
  -- `write_message` with respect for the tail) and of any number of processes that claim, where
  -- a turn is one access to the shared head, tail, slot or lock: the payloads that were
  -- published are those that were claimed, followed by those in the ring, in order, so that
  -- none is lost, doubled or torn; the segment is well formed; and no process stands where an
  -- exception would have left it, other than the errors for a payload that is too large and for
  -- a deadline that has passed.
  pub sent-taken_contents :
      ((run es (start m)).sent ≡ (run es (start m)).taken ++ contents n z (run es (start m)).memory)
      × IsSegment n z (run es (start m)).memory
      × ((run es (start m)).writer ≢ WriterPc.failed)
      × ((i : ℕ) → (run es (start m)).readers i ≢ ReaderPc.failed)
  sent-taken_contents = (
    after.split,
    after.segment,
    failing_writer _ after.writer_knows,
    λ i. failing_reader _ (after.reader_knows i),
  )

  -- From a well-formed segment whose ring is empty, with nobody in a call and the lock free,
  -- after any sequence of turns of one process that writes (nonblocking or blocking, in
  -- `write_message` with respect for the tail) and of any number of processes that claim, where
  -- a turn is one access to the shared head, tail, slot or lock: two processes that both stand
  -- within the lock are the same one.
  pub mutual_exclusion :
      (i j : ℕ)
      → critical ((run es (start m)).readers i) ≡ true
      → critical ((run es (start m)).readers j) ≡ true
      → i ≡ j
  mutual_exclusion i j mine theirs = cc (after.owner i mine, after.owner j theirs)
