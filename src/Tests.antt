-- ===== src/Tests.antt =====
-- A small ring, system and serializer, to which the modules below apply the theorems.
pub mod Rings
pub mod Patterns
pub mod Segments
pub mod Starts
pub mod Waiting
pub mod Races
pub mod Followers
pub mod Scripts
pub mod Benchmarks
pub mod Commands
use shm_comm.Prelude.{
  ℕ, zero, suc, ◌+◌, ◌*◌, ◌%◌, ◌≤◌, ◌<◌, ◌≡◌, refl, sym, ◌≢◌, true, false, Option, none, some, [],
  ◌∷◌, length, arith, ◌==◌, ◌&&◌, if◌then◌else◌,
}
use shm_comm.Prelude.Int.{as_int64}
use shm_comm.Exec.{
  Action, ok, raised, running, shm_connection_error, shm_serialization_error, shm_timeout_error,
  ◌>>=◌,
}
use shm_comm.Exec.Spin.{World, deadline, expired}
use shm_comm.Exec.Waiting.{Waits}
use shm_comm.Memory.{Memory, encode_le, decode_le}
use shm_comm.Memory.Words.{decode_le-encode_le}
use shm_comm.Names.{Name, codes, same, push_kind, segment_name-injective}
use shm_comm.Core.Header.{
  idx_head, idx_magic, idx_version, idx_msg_count, idx_drop_count, magic, version, get_field,
}
use shm_comm.Core.Segments.{
  System, SharedMemory, lookup, create_segment, attach_segment, close_segment,
}
use shm_comm.Fifo
use shm_comm.Fifo.{Payload, push, pull}
use shm_comm.Feed.{receive}
use shm_comm.Mailbox
use shm_comm.Buffer.{Stats, get_stats, write_message, read_message_spsc}
use shm_comm.Buffer.Segment.{IsSegment}
use shm_comm.Buffer.Queue.{contents}
use shm_comm.Buffer.Refine
use shm_comm.Buffer.Refine.{run_refines, write_message-push_payload}
use shm_comm.Buffer.Subscription.{Tracks, with_cursor, next_cursor, read_message_spsc-receive}
use shm_comm.Buffer.Burst.{publish_all, drain, drain-publish_all}
use shm_comm.Buffer.Statistics.{get_stats-lem}
use shm_comm.Lifecycle.Init.{zeros, initialised, initialised-IsSegment}
use shm_comm.Lifecycle.Fresh.{no_publications, fresh-Tracks, fresh-Posted}
use shm_comm.Lifecycle.Create.{create_segment-fresh, close_segment_lem}
use shm_comm.Lifecycle.Attach.{attach_segment-ends, attach_segment-found, attach_segment-missing}
use shm_comm.Serialize.{Library, pickle, serialize, deserialize}
use shm_comm.Serialize.Errors.{serialize-raises_own}
use shm_comm.Utils.{poll_once, poll_until}
use shm_comm.Utils.Poll.{poll_until-ends, poll_until-first}
use shm_comm.Sync.{FileLock, acquire, release}
use shm_comm.Sync.Laws.{acquire-held, release-acquire}
use shm_comm.Patterns.Objects.{IsOpen}
use shm_comm.PubSub.Channel
use shm_comm.PubSub.Channel.{Channel, Joined}
use shm_comm.PubSub.Channel.Calls.{run-feed_run}
use shm_comm.ReqRep.Service
use shm_comm.ReqRep.Service.{Service, Boxes}
use shm_comm.ReqRep.Service.Links.{Linked}
use shm_comm.ReqRep.Service.Calls.{run-box_run}
use shm_comm.ReqRep.Service.Limit.{accepted_requests, accepted_requests-le}
use shm_comm.Pipeline.Puller
use shm_comm.Pipeline.Puller.{Puller}
use shm_comm.Pipeline.Queue
use shm_comm.Pipeline.Queue.{Line, Serving}
use shm_comm.Pipeline.Calls.{run-fifo_run}
use shm_comm.Pipeline.Claim.{try_claim_bytes-pull_payload}

-- Three slots of sixteen bytes, as `create_segment` leaves them.
abbrev pub ring : Memory
ring = initialised 3 16 (zeros (128 + 3 * 16))

pub ring-IsSegment : IsSegment 3 16 ring
ring-IsSegment = initialised-IsSegment 3 16 (omega arith) (omega arith) (omega arith) (omega arith)

pub ring-Tracks : Tracks 3 16 ring 0 no_publications
ring-Tracks = fresh-Tracks 3 16 (omega arith) (omega arith) (omega arith) (omega arith)

-- The clock shows the round, and no other process does anything.
abbrev pub alone : {S : Type 0} → World S
alone = record { started = 0; clock = λ round. round; others = λ round s. s }

abbrev pub system : System
system = record {
  names = (codes "a", 0) ∷ [];
  objects = λ i. ring;
  next = 2;
  locks = λ p. none;
  next_fd = 1;
  open_fds = λ k. k == 0;
}

-- The values are bytes already, but not bytes-like objects; the empty one is None.
abbrev pub library : Library
library = record {
  Value = Payload;
  raw_bytes = λ v. none;
  is_none = λ v. length v == 0;
  is_false = λ v. false;
  dumps = λ v. some v;
  loads = λ b. some b;
  msgpack_available = false;
  packb = λ v. some v;
  unpackb = λ b. some b;
}

abbrev pub handle : ℕ → SharedMemory
handle i = record { name = codes "a"; object = i }

pub handle-IsOpen : (i : ℕ) → IsOpen (some (handle i)) i
handle-IsOpen i = record { handle = handle i; is_open = refl; object = refl }

abbrev pub lock : FileLock
lock = record { path = codes "l"; timeout = none; fd = none }

abbrev pub puller : Puller
puller = record { name = codes "a"; serialization = pickle; shm = some (handle 0); lock = lock }

abbrev pub channel : Channel
channel = record {
  publisher = record { name = codes "a"; serialization = pickle; shm = some (handle 0) };
  subscriber = record { name = codes "a"; serialization = pickle; shm = some (handle 0); tail = 0 };
  system = system;
}

pub channel-Joined : Joined 3 16 0 pickle pickle channel no_publications
channel-Joined = record {
  pub_shm = handle 0;
  sub_shm = handle 0;
  pub_open = refl;
  sub_open = refl;
  pub_object = refl;
  sub_object = refl;
  sends_by = refl;
  receives_by = refl;
  tracks = ring-Tracks;
}

abbrev pub service : Service
service = record {
  requester = record {
    name = codes "a";
    serialization = pickle;
    req_shm = some (handle 0);
    rep_shm = some (handle 1);
    rep_tail = 0;
  };
  replier = record {
    name = codes "a";
    serialization = pickle;
    req_shm = some (handle 0);
    rep_shm = some (handle 1);
    req_tail = 0;
  };
  system = system;
}

abbrev pub empty_boxes : Boxes
empty_boxes = record { requests = Mailbox.fresh; replies = Mailbox.fresh }

pub service-Linked : Linked 3 16 0 1 pickle pickle service empty_boxes
service-Linked = record {
  apart = omega arith;
  req_out = handle-IsOpen 0;
  req_in = handle-IsOpen 0;
  rep_out = handle-IsOpen 1;
  rep_in = handle-IsOpen 1;
  requests_by = refl;
  replies_by = refl;
  requests = fresh-Posted 3 16 (omega arith) (omega arith) (omega arith) (omega arith);
  replies = fresh-Posted 3 16 (omega arith) (omega arith) (omega arith) (omega arith);
}

abbrev pub line : Line
line = record {
  pusher = record { name = codes "a"; serialization = pickle; shm = some (handle 0) };
  pullers = λ k. puller;
  system = system;
}

pub line-Serving : Serving 3 16 0 (codes "l") pickle pickle line (contents 3 16 ring)
line-Serving = record {
  push_open = handle-IsOpen 0;
  pull_open = λ k. handle-IsOpen 0;
  pull_path = λ k. refl;
  sends_by = refl;
  claims_by = λ k. refl;
  free = refl;
  segment = ring-IsSegment;
  holds = refl;
}
