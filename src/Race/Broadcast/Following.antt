-- ===== src/Race/Broadcast/Following.antt =====
-- A reader that is never a whole ring behind at its own turns.
use shm_comm.Prelude.{
  ℕ, ◌+◌, ◌%◌, ◌≤◌, ◌<◌, ◌≡◌, ◌≢◌, refl, sym, ap, subst, ◌∙◌, Bool, true, List, [], ◌∷◌, ◌++◌,
  length, ltb, ◌==◌, ◌&&◌, if◌then◌else◌, drop, arith, eq→==, ne→==, ltb→lt, ℕ_discrete,
}
use shm_comm.Prelude.Remainder.{mod-below}
use shm_comm.Memory.{Memory}
use shm_comm.Fifo.{Payload}
use shm_comm.Buffer.Segment.{IsSegment}
use shm_comm.Buffer.Queue.{head_of}
use shm_comm.Race.{WriterPc, submitted, timed_out}
use shm_comm.Race.Facts.{WriterFactIn}
use shm_comm.Race.Facts.Stores.{Stepped}
use shm_comm.Race.Broadcast.{
  WatcherPc, Watcher, Broadcast, Event, submit, write, expire, subscribe, poll, watch, any_turn,
  join, called, watcher_turn, with_watcher, step, run,
}
use shm_comm.Race.Broadcast.Held.{Room, Held, any_turn-Stepped, Stepped-Held}
use shm_comm.Race.Broadcast.Places.{slot_of}
use shm_comm.Race.Broadcast.Reading.{
  place, PcFact, Follows, grown-Follows, called-Follows, join-Follows, watcher_turn-Follows,
}

submitted-fact :
    (R : ℕ → ℕ → Type 0) (n z : ℕ) (m : Memory) (p : Payload) (b : Bool) (pc : WriterPc)
    → WriterFactIn R n z m pc
    → WriterFactIn R n z m (submitted p b pc)
submitted-fact R n z m p b WriterPc.ready f = tt
submitted-fact R n z m p b (WriterPc.starting q c) f = f
submitted-fact R n z m p b pc f = f

timed_out-fact :
    (R : ℕ → ℕ → Type 0) (n z : ℕ) (m : Memory) (pc : WriterPc)
    → WriterFactIn R n z m pc
    → WriterFactIn R n z m (timed_out pc)
timed_out-fact R n z m (WriterPc.waiting l) f = tt
timed_out-fact R n z m pc f = f

-- The ring and its writer, whatever the readers do.
pub record Serves (overwrite : Bool) (n z base : ℕ) (s : Broadcast) : Type 0 where
  pub held : Held n z base s.memory s.sent
  pub writer_knows : WriterFactIn (Room overwrite n) n z s.memory s.writer

module _ {overwrite : Bool} {n z base : ℕ} {s : Broadcast} (v : Serves overwrite n z base s) where
  pub write-Stepped :
      Stepped (Room overwrite n) n z s.memory s.writer (any_turn overwrite s.writer s.memory)
  write-Stepped = any_turn-Stepped overwrite v.held.segment s.writer v.writer_knows

  pub step-Serves : (e : Event) → Serves overwrite n z base (step overwrite e s)
  unfolding step
  step-Serves (submit p b) = record {
    held = v.held;
    writer_knows = submitted-fact (Room overwrite n) n z s.memory p b s.writer v.writer_knows;
  }
  step-Serves write =
      let o = Stepped-Held v.held (Room overwrite n) s.writer _ write-Stepped in
      record { held = o.0; writer_knows = o.1 }
  step-Serves expire = record {
    held = v.held;
    writer_knows = timed_out-fact (Room overwrite n) n z s.memory s.writer v.writer_knows;
  }
  step-Serves (subscribe i) = record { held = v.held; writer_knows = v.writer_knows }
  step-Serves (poll i) = record { held = v.held; writer_knows = v.writer_knows }
  step-Serves (watch i) = record { held = v.held; writer_knows = v.writer_knows }

-- Before reader `i` has a turn, fewer than `n` publications are pending for it.
abbrev pub near : ℕ → ℕ → Event → Broadcast → Bool
near n i (watch j) s = if j == i then ltb (length s.sent) (place (s.watchers i) + n) else true
near n i _ s = true

unfoldable pub keeps_up : Bool → ℕ → ℕ → List Event → Broadcast → Bool
keeps_up overwrite n i [] s = true
keeps_up overwrite n i (e ∷ es) s =
    let rest = keeps_up overwrite n i es (step overwrite e s) in near n i e s && rest

and-left : (a b : Bool) → (a && b) ≡ true → a ≡ true
and-left a b h = ground arith

and-right : (a b : Bool) → (a && b) ≡ true → b ≡ true
and-right a b h = ground arith

near-lt :
    (n i j : ℕ) (s : Broadcast)
    → near n i (watch j) s ≡ true
    → j ≡ i
    → length s.sent < place (s.watchers i) + n
near-lt n i j s h e = ltb→lt _ _ (sym (rw (eq→== j i e) refl) ∙ h)

-- What holds of reader `i`, changed or not, holds of it after one reader has changed.
with_watcher-each :
    (P : Watcher → Type 0) (f g : ℕ → Watcher) (j i : ℕ)
    → (j ≡ i → P (g i))
    → P (f i)
    → P (with_watcher f j (g j) i)
with_watcher-each P f g j i h same = elim (ℕ_discrete j i) [
  | yes e ↦ rw (eq→== j i e) (subst (λ k. P (g k)) (sym e) (h e))
  | no ne ↦ rw (ne→== j i ne) same
]

module _ {overwrite : Bool} {n z base : ℕ} {s : Broadcast} (v : Serves overwrite n z base s) (i : ℕ)
    (f : Follows n z base s.sent (s.watchers i)) where
  step-Follows :
      (e : Event)
      → near n i e s ≡ true
      → Follows n z base (step overwrite e s).sent ((step overwrite e s).watchers i)
  unfolding step
  step-Follows (submit p b) h = f
  step-Follows write h = grown-Follows _ f
  step-Follows expire h = f
  step-Follows (subscribe j) h =
      with_watcher-each (Follows n z base s.sent) s.watchers
        (λ k. join (s.watchers k).pc (length s.sent) s.memory (s.watchers k)) j i
        (λ _. join-Follows v.held f) f
  step-Follows (poll j) h =
      with_watcher-each (Follows n z base s.sent) s.watchers
        (λ k. let w = s.watchers k in record w { pc = called w.pc }) j i
        (λ _. called-Follows v.held f) f
  step-Follows (watch j) h =
      with_watcher-each (Follows n z base s.sent) s.watchers
        (λ k. watcher_turn (s.watchers k).pc (s.watchers k) s.memory) j i
        (λ e. watcher_turn-Follows v.held f (s.watchers i).pc f.knows (near-lt n i j s h e)) f

-- Before any turn: every reader has just taken its cursor from the head.
abbrev pub start : Memory → Broadcast
start m = record {
  memory = m;
  writer = WriterPc.ready;
  watchers =
      λ i. record { pc = WatcherPc.resting; local_tail = head_of m; joined = 0; received = [] };
  sent = [];
}

module _ {n z : ℕ} {m : Memory} (s : IsSegment n z m) where
  base_slot : head_of m ≡ slot_of n (head_of m) 0
  base_slot = sym (ap (λ (h : ℕ). h % n) (omega arith) ∙ mod-below (head_of m) n s.head_in)

  pub start-Serves : (overwrite : Bool) → Serves overwrite n z (head_of m) (start m)
  start-Serves overwrite = record {
    held = record { segment = s; head = base_slot; kept = λ k p e near. cc };
    writer_knows = tt;
  }

  pub start-Follows : (i : ℕ) → Follows n z (head_of m) [] ((start m).watchers i)
  start-Follows i = record { cursor = base_slot; behind = omega arith; order = refl; knows = tt }

pub run-Serves :
    {overwrite : Bool} {n z base : ℕ} (es : List Event) {s : Broadcast}
    → Serves overwrite n z base s
    → Serves overwrite n z base (run overwrite es s)
unfolding run
run-Serves [] v = v
run-Serves (e ∷ es) v = run-Serves es (step-Serves v e)

pub run-Follows :
    {overwrite : Bool} {n z base : ℕ} (es : List Event) (i : ℕ) {s : Broadcast}
    → Serves overwrite n z base s
    → Follows n z base s.sent (s.watchers i)
    → keeps_up overwrite n i es s ≡ true
    → Follows n z base (run overwrite es s).sent ((run overwrite es s).watchers i)
unfolding run keeps_up
run-Follows [] i v f h = f
run-Follows {overwrite} {n} (e ∷ es) i {s} v f h =
    run-Follows es i (step-Serves v e) (step-Follows v i f e (and-left (near n i e s) _ h))
      (and-right (near n i e s) _ h)

pub reading :
    (n z base at : ℕ) (sent : List Payload) (pc : WatcherPc)
    → PcFact n z base sent at pc
    → pc ≢ WatcherPc.failed
reading n z base at sent pc f q = subst (PcFact n z base sent at) q f

pub writing :
    (R : ℕ → ℕ → Type 0) (n z : ℕ) (m : Memory) (pc : WriterPc)
    → WriterFactIn R n z m pc
    → pc ≢ WriterPc.failed
writing R n z m pc f q = subst (WriterFactIn R n z m) q f

module _ {n z : ℕ} {m : Memory} (s : IsSegment n z m) (overwrite : Bool) (es : List Event)
    (i : ℕ) where
  abbrev after : Broadcast
  after = run overwrite es (start m)

  abbrev reader : Watcher
  reader = after.watchers i

  -- From a well-formed segment of n slots, with nobody in a call and the cursor of every reader
  -- at the head, after any sequence of turns of one process that writes and of any number of
  -- readers with private cursors, which may also take a new cursor from the head between two
  -- reads, where a turn is one access to the shared head, tail or slot, and the writer
  -- overwrites old slots or respects the tail: if fewer than n publications were pending for a
  -- reader before each of its own turns, then it has received the publications since it took
  -- its cursor, in order and whole, up to those that are still to come; neither it nor the
  -- writer stands where an exception would have left it, other than the errors for a payload
  -- that is too large and for a deadline that has passed; and the segment is well formed.
  pub received_in_order :
      keeps_up overwrite n i es (start m) ≡ true
      → (drop reader.joined after.sent
          ≡ reader.received ++ drop (reader.joined + length reader.received) after.sent)
        × (reader.joined + length reader.received ≤ length after.sent)
        × (reader.pc ≢ WatcherPc.failed)
        × (after.writer ≢ WriterPc.failed)
        × IsSegment n z after.memory
  received_in_order h =
      let v : Serves overwrite n z (head_of m) after = run-Serves es (start-Serves s overwrite) in
      let f : Follows n z (head_of m) after.sent reader =
        run-Follows es i (start-Serves s overwrite) (start-Follows s i) h in
      (
        f.order,
        f.behind,
        reading n z (head_of m) (place reader) after.sent _ f.knows,
        writing (Room overwrite n) n z after.memory _ v.writer_knows,
        v.held.segment,
      )
