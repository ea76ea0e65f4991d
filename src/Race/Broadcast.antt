-- ===== src/Race/Broadcast.antt =====
-- buffer.py with every shared access a turn of its own, for readers with private cursors: one process in
-- `write_message`, which overwrites old slots or respects the tail, and any number of processes in
-- `read_message_spsc`. That is a publisher with its subscribers, and one direction of request/reply.
pub mod Places
pub mod Held
pub mod Reading
pub mod Following
pub mod Private
use shm_comm.Prelude.{
  ℕ, ◌+◌, Bool, true, false, List, [], ◌∷◌, ◌++◌, length, leb, ◌==◌, if◌then◌else◌,
}
use shm_comm.Exec.{Action, Outcome, ok, raised, running, pure, py_mod, ◌>>=◌, ◌>>◌}
use shm_comm.Memory.{Memory}
use shm_comm.Core.Header.{
  slot_prefix_size, idx_head, idx_num_slots, idx_slot_size, get_header, field,
}
use shm_comm.Fifo.{Payload}
use shm_comm.Buffer.{slot_offset, unpack_from, load_slice}
use shm_comm.Race.{
  WriterPc, Place, next, locals_of, writer_turn, head_seen, published, submitted, timed_out,
}

-- The first turn of a write: with `overwrite` it goes on to the slot without a look at the tail.
abbrev pub start_turn : (overwrite : Bool) → Payload → Bool → Memory → WriterPc × Memory
start_turn false payload block m = writer_turn (WriterPc.starting payload block) m
start_turn true payload block m = next WriterPc.failed (locals_of payload block m) λ l.
    if leb (length payload + slot_prefix_size) l.slot_size
    then WriterPc.filling l
    else WriterPc.ready

unfoldable pub any_turn : (overwrite : Bool) → WriterPc → Memory → WriterPc × Memory
unfolding get_header field
any_turn overwrite (WriterPc.starting payload block) m = start_turn overwrite payload block m
any_turn overwrite pc m = writer_turn pc m

-- Where a reader stands in `read_message_spsc`; a read is over with its last access.
pub data WatcherPc : Type 0 where
  resting : WatcherPc
  entered : WatcherPc
  saw_head : ℕ → WatcherPc
  chosen : Place → WatcherPc
  sized : Place → (payload_size : ℕ) → WatcherPc
  failed : WatcherPc

-- A reader with its cursor. `joined` and `received` record how many payloads were published when it
-- took its cursor from the head, and what its reads have returned since.
pub record Watcher : Type 0 where
  pub pc : WatcherPc
  pub local_tail : ℕ
  pub joined : ℕ
  pub received : List Payload

abbrev pub geometry : ℕ → Action Memory Place
geometry local_tail = do
  num_slots ← field idx_num_slots
  slot_size ← field idx_slot_size
  pure (record { tail = local_tail; num_slots = num_slots; slot_size = slot_size })

abbrev pub payload_read : Place → ℕ → Action Memory (Payload × ℕ)
payload_read l payload_size = do
  payload ← load_slice (slot_offset l.tail l.slot_size + slot_prefix_size) payload_size
  new_tail ← py_mod (l.tail + 1) l.num_slots
  pure (payload, new_tail)

abbrev pub got : Outcome (Payload × ℕ) → Watcher → Watcher
got (ok (payload, new_tail)) w = record w {
  pc = WatcherPc.resting;
  local_tail = new_tail;
  received = w.received ++ payload ∷ [];
}
got (raised e) w = record w { pc = WatcherPc.failed }
got running w = record w { pc = WatcherPc.failed }

-- A reader's next turn; it stores nothing in the segment.
unfoldable pub watcher_turn : WatcherPc → Watcher → Memory → Watcher
unfolding get_header field py_mod
watcher_turn WatcherPc.resting w m = w
watcher_turn WatcherPc.entered w m = record w {
  pc = (next WatcherPc.failed (head_seen m) WatcherPc.saw_head).0;
}
watcher_turn (WatcherPc.saw_head head) w m = record w {
  pc =
      (next WatcherPc.failed (geometry w.local_tail m)
        λ l. if l.tail == head then WatcherPc.resting else WatcherPc.chosen l).0;
}
watcher_turn (WatcherPc.chosen l) w m = record w {
  pc =
      (next WatcherPc.failed (unpack_from (slot_offset l.tail l.slot_size) m)
        (WatcherPc.sized l)).0;
}
watcher_turn (WatcherPc.sized l payload_size) w m = got (payload_read l payload_size m).0 w
watcher_turn WatcherPc.failed w m = w

-- The last lines of `Subscriber.__init__`: a new cursor at the head.
abbrev pub join_at : Outcome ℕ → ℕ → Watcher → Watcher
join_at (ok head) count w = record {
  pc = WatcherPc.resting;
  local_tail = head;
  joined = count;
  received = [];
}
join_at (raised e) count w = record w { pc = WatcherPc.failed }
join_at running count w = record w { pc = WatcherPc.failed }

unfoldable pub join : WatcherPc → ℕ → Memory → Watcher → Watcher
unfolding get_header field
join WatcherPc.resting count m w = join_at (head_seen m).0 count w
join pc count m w = w

abbrev pub called : WatcherPc → WatcherPc
called WatcherPc.resting = WatcherPc.entered
called pc = pc

pub record Broadcast : Type 0 where
  pub memory : Memory
  pub writer : WriterPc
  pub watchers : ℕ → Watcher
  pub sent : List Payload

-- A call of `write_message` begins, a turn of the writer, the deadline of a writer that waits; a reader
-- takes a new cursor, begins a read, has a turn.
pub data Event : Type 0 where
  submit : Payload → Bool → Event
  write : Event
  expire : Event
  subscribe : ℕ → Event
  poll : ℕ → Event
  watch : ℕ → Event

abbrev pub with_watcher : (ℕ → Watcher) → ℕ → Watcher → ℕ → Watcher
with_watcher watchers i w j = if i == j then w else watchers j

module _ (overwrite : Bool) where
  unfoldable pub step : Event → Broadcast → Broadcast
  step (submit p b) s = record s { writer = submitted p b s.writer }
  step write s =
      let r = any_turn overwrite s.writer s.memory in
      record s { memory = r.1; writer = r.0; sent = s.sent ++ published s.writer }
  step expire s = record s { writer = timed_out s.writer }
  step (subscribe i) s =
      let w = s.watchers i in
      record s { watchers = with_watcher s.watchers i (join w.pc (length s.sent) s.memory w) }
  step (poll i) s =
      let w = s.watchers i in
      record s { watchers = with_watcher s.watchers i (record w { pc = called w.pc }) }
  step (watch i) s =
      let w = s.watchers i in
      record s { watchers = with_watcher s.watchers i (watcher_turn w.pc w s.memory) }

  unfoldable pub run : List Event → Broadcast → Broadcast
  unfolding step
  run [] s = s
  run (e ∷ es) s = run es (step e s)
