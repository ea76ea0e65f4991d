-- ===== src/Race.antt =====
-- buffer.py and sync.py with every shared access a step of its own: one process in `write_message`, any
-- number of processes in `Puller._try_claim_bytes`, and any order in which they take turns.
-- A turn ends after each access to the head, the tail, the size or the bytes of a slot, and the lock.
-- The geometry is read together, since no one writes it after creation; each counter is incremented in
-- one turn, since only the writer touches them.
pub mod Facts
pub mod Safety
pub mod Broadcast
use shm_comm.Prelude.{
  ℕ, ◌+◌, Bool, true, false, Option, none, some, List, [], ◌∷◌, ◌++◌, length, leb, ◌==◌,
  if◌then◌else◌,
}
use shm_comm.Exec.{Action, Outcome, ok, raised, running, pure, py_mod, ◌>>=◌, ◌>>◌}
use shm_comm.Memory.{Memory}
use shm_comm.Core.Header.{
  slot_prefix_size, idx_head, idx_tail, idx_msg_count, idx_drop_count, idx_num_slots, idx_slot_size,
  get_header, field, assign, increment,
}
use shm_comm.Fifo.{Payload}
use shm_comm.Buffer.{slot_offset, pack_into, store_slice, unpack_from, load_slice}

-- The arguments and the first local variables of `write_message`.
pub record Locals : Type 0 where
  pub payload : Payload
  pub block : Bool
  pub num_slots : ℕ
  pub slot_size : ℕ

-- Where the writer stands. `failed` is an exception that the code does not mean to raise.
pub data WriterPc : Type 0 where
  ready : WriterPc
  starting : Payload → Bool → WriterPc
  looking : Locals → WriterPc
  compared : Locals → (head : ℕ) → WriterPc
  waiting : Locals → WriterPc
  dropping : WriterPc
  filling : Locals → WriterPc
  placing : Locals → (head next_head : ℕ) → WriterPc
  copying : Locals → (head next_head : ℕ) → WriterPc
  publishing : Locals → (next_head : ℕ) → WriterPc
  counting : WriterPc
  failed : WriterPc

-- The local variables of `read_message_shared_tail`.
pub record Place : Type 0 where
  pub tail : ℕ
  pub num_slots : ℕ
  pub slot_size : ℕ

pub data ReaderPc : Type 0 where
  resting : ReaderPc
  entered : ReaderPc
  saw_head : ℕ → ReaderPc
  chosen : Place → ReaderPc
  sized : Place → (payload_size : ℕ) → ReaderPc
  moving : Place → Payload → ReaderPc
  leaving : Option Payload → ReaderPc
  failed : ReaderPc

-- From the outcome of an access to the next place.
abbrev pub next {ℓ} : {A : Type ℓ} {P : Type 0} → P → Outcome A × Memory → (A → P) → P × Memory
next fail (ok a, m) f = (f a, m)
next fail (raised e, m) f = (fail, m)
next fail (running, m) f = (fail, m)

abbrev pub locals_of : Payload → Bool → Action Memory Locals
locals_of payload block = do
  get_header
  num_slots ← field idx_num_slots
  slot_size ← field idx_slot_size
  pure (record { payload = payload; block = block; num_slots = num_slots; slot_size = slot_size })

-- `next_head == tail`
abbrev pub is_full : ℕ → ℕ → Action Memory Bool
is_full head num_slots = do
  tail ← field idx_tail
  next_head ← py_mod (head + 1) num_slots
  pure (next_head == tail)

abbrev pub aim : ℕ → Action Memory (ℕ × ℕ)
aim num_slots = do
  head ← field idx_head
  next_head ← py_mod (head + 1) num_slots
  pure (head, next_head)

-- The writer's next turn.
unfoldable pub writer_turn : WriterPc → Memory → WriterPc × Memory
unfolding get_header field py_mod assign increment
writer_turn WriterPc.ready m = (WriterPc.ready, m)
writer_turn (WriterPc.starting p b) m = next WriterPc.failed (locals_of p b m) λ l.
    if leb (length p + slot_prefix_size) l.slot_size then WriterPc.looking l else WriterPc.ready
writer_turn (WriterPc.looking l) m = next WriterPc.failed (field idx_head m) (WriterPc.compared l)
writer_turn (WriterPc.compared l head) m = next WriterPc.failed (is_full head l.num_slots m) λ full.
    if full then (if l.block then WriterPc.waiting l else WriterPc.dropping) else WriterPc.filling l
writer_turn (WriterPc.waiting l) m = (WriterPc.looking l, m)
writer_turn WriterPc.dropping m =
    next WriterPc.failed (increment idx_drop_count m) (λ _. WriterPc.ready)
writer_turn (WriterPc.filling l) m =
    next WriterPc.failed (aim l.num_slots m) (λ a. WriterPc.placing l a.0 a.1)
writer_turn (WriterPc.placing l head next_head) m =
    next WriterPc.failed (pack_into (slot_offset head l.slot_size) (length l.payload) m)
      (λ _. WriterPc.copying l head next_head)
writer_turn (WriterPc.copying l head next_head) m =
    next WriterPc.failed (store_slice (slot_offset head l.slot_size + slot_prefix_size) l.payload m)
      (λ _. WriterPc.publishing l next_head)
writer_turn (WriterPc.publishing l next_head) m =
    next WriterPc.failed (assign idx_head next_head m) (λ _. WriterPc.counting)
writer_turn WriterPc.counting m =
    next WriterPc.failed (increment idx_msg_count m) (λ _. WriterPc.ready)
writer_turn WriterPc.failed m = (WriterPc.failed, m)

abbrev pub head_seen : Action Memory ℕ
head_seen = do get_header; field idx_head

abbrev pub place_of : Action Memory Place
place_of = do
  tail ← field idx_tail
  num_slots ← field idx_num_slots
  slot_size ← field idx_slot_size
  pure (record { tail = tail; num_slots = num_slots; slot_size = slot_size })

abbrev pub move_tail : Place → Action Memory (Unit {0})
move_tail l = py_mod (l.tail + 1) l.num_slots >>= assign idx_tail

-- The next turn of a reader that holds the lock; the turns that take it and give it back are in `step`.
unfoldable pub reader_turn : ReaderPc → Memory → ReaderPc × Memory
unfolding get_header field py_mod assign
reader_turn ReaderPc.entered m = next ReaderPc.failed (head_seen m) ReaderPc.saw_head
reader_turn (ReaderPc.saw_head head) m =
    next ReaderPc.failed (place_of m)
      λ l. if l.tail == head then ReaderPc.leaving none else ReaderPc.chosen l
reader_turn (ReaderPc.chosen l) m =
    next ReaderPc.failed (unpack_from (slot_offset l.tail l.slot_size) m) (ReaderPc.sized l)
reader_turn (ReaderPc.sized l payload_size) m =
    next ReaderPc.failed
      (load_slice (slot_offset l.tail l.slot_size + slot_prefix_size) payload_size m)
      (ReaderPc.moving l)
reader_turn (ReaderPc.moving l p) m =
    next ReaderPc.failed (move_tail l m) (λ _. ReaderPc.leaving (some p))
reader_turn pc m = (pc, m)

-- The processes together. `holder` is the reader whose open file has the lock. `sent` and `taken` record
-- what was published and what was claimed, each when the head or the tail is moved.
pub record Race : Type 0 where
  pub memory : Memory
  pub holder : Option ℕ
  pub writer : WriterPc
  pub readers : ℕ → ReaderPc
  pub sent : List Payload
  pub taken : List Payload

abbrev pub published : WriterPc → List Payload
published (WriterPc.publishing l next_head) = l.payload ∷ []
published _ = []

abbrev pub removed : ReaderPc → List Payload
removed (ReaderPc.moving l p) = p ∷ []
removed _ = []

abbrev pub update : (ℕ → ReaderPc) → ℕ → ReaderPc → ℕ → ReaderPc
update readers i pc j = if i == j then pc else readers j

-- A call of `write_message` begins, a turn of the writer, the deadline of a writer that waits (it raises
-- the buffer-full error), a turn of one reader.
pub data Event : Type 0 where
  submit : Payload → Bool → Event
  write : Event
  expire : Event
  read : ℕ → Event

abbrev pub submitted : Payload → Bool → WriterPc → WriterPc
submitted p b WriterPc.ready = WriterPc.starting p b
submitted p b pc = pc

abbrev pub timed_out : WriterPc → WriterPc
timed_out (WriterPc.waiting l) = WriterPc.ready
timed_out pc = pc

-- One attempt at the lock.
abbrev pub lock_for : ℕ → Option ℕ → Race → Race
lock_for i none s = record s { holder = some i; readers = update s.readers i ReaderPc.entered }
lock_for i (some h) s = s

abbrev pub turn_of : ℕ → ReaderPc → Race → Race
turn_of i pc s =
    let r = reader_turn pc s.memory in
    record s { memory = r.1; readers = update s.readers i r.0; taken = s.taken ++ removed pc }

abbrev pub read_by : ℕ → ReaderPc → Race → Race
read_by i ReaderPc.resting s = lock_for i s.holder s
read_by i (ReaderPc.leaving r) s = record s {
  holder = none;
  readers = update s.readers i ReaderPc.resting;
}
read_by i pc s = turn_of i pc s

unfoldable pub step : Event → Race → Race
step (submit p b) s = record s { writer = submitted p b s.writer }
step write s =
    let r = writer_turn s.writer s.memory in
    record s { memory = r.1; writer = r.0; sent = s.sent ++ published s.writer }
step expire s = record s { writer = timed_out s.writer }
step (read i) s = read_by i (s.readers i) s

unfoldable pub run : List Event → Race → Race
unfolding step
run [] s = s
run (e ∷ es) s = run es (step e s)
