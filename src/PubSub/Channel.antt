-- ===== src/PubSub/Channel.antt =====
-- patterns/pubsub.py: a publisher and a subscriber on one channel, in any order of their calls, and the feed that they
-- come to.
pub mod Calls
pub mod Start
use shm_comm.Prelude.{
  ℕ, ◌+◌, ◌≡◌, refl, ap, ap₂, ◌∙◌, Bool, true, false, Option, none, some, List, [], ◌∷◌, length,
  arith, leb, le→leb, lt→leb, if◌then◌else◌, dec_le,
}
use shm_comm.Exec.{Outcome, continue, ok, raised, running, value_error}
use shm_comm.Exec.Spin.{World}
use shm_comm.Memory.{Memory}
use shm_comm.Core.Segments.{System, SharedMemory, on_object}
use shm_comm.Fifo.{Payload}
use shm_comm.Feed.{Feed, publish, receive}
use shm_comm.Buffer.{write_message, read_message_spsc}
use shm_comm.Buffer.Write.{write_message-too_large, write_message-overwrite}
use shm_comm.Buffer.Subscription.{
  Tracks, Tracks-publish, with_cursor, next_cursor, read_message_spsc-receive,
}
use shm_comm.Serialize.{Library, Method, serialize}
use shm_comm.Patterns.{on_shm, decode}
use shm_comm.Patterns.Objects.{on_shm-open}
use shm_comm.Core.Objects.{on_object-outcome, objects-on_object_self, on_object-same}
use shm_comm.PubSub.Publisher
use shm_comm.PubSub.Publisher.{Publisher}
use shm_comm.PubSub.Subscriber
use shm_comm.PubSub.Subscriber.{Subscriber}

module _ (lib : Library) where
  -- One call of one of the two objects; a receive is one poll.
  pub data Event : Type 0 where
    send : lib.Value → Event
    send_bytes : Payload → Event
    try_recv : Event
    try_recv_bytes : Event

  pub data Answer : Type 0 where
    sent : Outcome Bool → Answer
    received : Outcome (Option lib.Value) → Answer
    received_bytes : Outcome (Option Payload) → Answer

pub record Channel : Type 0 where
  pub publisher : Publisher
  pub subscriber : Subscriber
  pub system : System

abbrev pub after_send : {A : Type 0} → Channel → A × System → Channel
after_send c r = record c { system = r.1 }

abbrev pub after_recv : {A : Type 0} → Channel → A × (Subscriber × System) → Channel
after_recv c r = record c { subscriber = r.1.0; system = r.1.1 }

module _ (lib : Library) (w : World Memory) (fuel : ℕ) where
  unfoldable pub call : Event lib → Channel → Answer lib × Channel
  call (send v) c =
      let r = Publisher.send lib w fuel c.publisher v c.system in (sent r.0, after_send c r)
  call (send_bytes b) c =
      let r = Publisher.send_bytes w fuel c.publisher b c.system in (sent r.0, after_send c r)
  call try_recv c =
      let r = Subscriber.try_recv lib (c.subscriber, c.system) in (received r.0, after_recv c r)
  call try_recv_bytes c =
      let r = Subscriber.try_recv_bytes (c.subscriber, c.system) in
      (received_bytes r.0, after_recv c r)

  unfoldable pub run : List (Event lib) → Channel → List (Answer lib)
  unfolding call
  run [] c = []
  run (e ∷ es) c = (call e c).0 ∷ run es (call e c).1

-- The same calls on the abstract feed of a ring of `n` slots of `z` bytes.
unfoldable pub publish_payload : ℕ → Payload → Feed Payload → Outcome Bool × Feed Payload
publish_payload z p f =
    if leb (length p + 4) z then (ok true, publish p f) else (raised value_error, f)

abbrev pub publish_serialized : ℕ → Outcome Payload → Feed Payload → Outcome Bool × Feed Payload
publish_serialized z (ok p) f = publish_payload z p f
publish_serialized z (raised e) f = (raised e, f)
publish_serialized z running f = (running, f)

module _ (lib : Library) (n z : ℕ) (send_method recv_method : Method) where
  unfoldable pub feed_call : Event lib → Feed Payload → Answer lib × Feed Payload
  feed_call (send v) f =
      let r = publish_serialized z (serialize lib v send_method) f in (sent r.0, r.1)
  feed_call (send_bytes b) f = let r = publish_payload z b f in (sent r.0, r.1)
  feed_call try_recv f = let r = receive n f in (received (decode lib recv_method r.0), r.1)
  feed_call try_recv_bytes f = let r = receive n f in (received_bytes (ok r.0), r.1)

  unfoldable pub feed_run : List (Event lib) → Feed Payload → List (Answer lib)
  feed_run [] f = []
  feed_run (e ∷ es) f = (feed_call e f).0 ∷ feed_run es (feed_call e f).1

-- Both objects are open on object `i`, which holds the feed's ring.
pub record Joined (n z i : ℕ) (sm rm : Method) (c : Channel) (f : Feed Payload) : Type 0 where
  pub pub_shm : SharedMemory
  pub sub_shm : SharedMemory
  pub pub_open : c.publisher.shm ≡ some pub_shm
  pub sub_open : c.subscriber.shm ≡ some sub_shm
  pub pub_object : pub_shm.object ≡ i
  pub sub_object : sub_shm.object ≡ i
  pub sends_by : c.publisher.serialization ≡ sm
  pub receives_by : c.subscriber.serialization ≡ rm
  pub tracks : Tracks n z (c.system.objects i) c.subscriber.tail f
