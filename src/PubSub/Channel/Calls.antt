-- ===== src/PubSub/Channel/Calls.antt =====
-- patterns/pubsub.py: the calls on a channel against the feed.
use shm_comm.Prelude.{
  ℕ, ◌+◌, ◌≡◌, refl, ap, ap₂, ◌∙◌, true, false, Option, none, some, List, [], ◌∷◌, length, arith,
  le→leb, lt→leb, dec_le,
}
use shm_comm.Exec.{Outcome, continue, ok, raised, running}
use shm_comm.Exec.Spin.{World}
use shm_comm.Memory.{Memory}
use shm_comm.Core.Segments.{System, on_object}
use shm_comm.Fifo.{Payload}
use shm_comm.Feed.{Feed, receive}
use shm_comm.Buffer.{write_message, read_message_spsc}
use shm_comm.Buffer.Write.{write_message-too_large, write_message-overwrite}
use shm_comm.Buffer.Subscription.{
  Tracks, Tracks-publish, with_cursor, next_cursor, read_message_spsc-receive,
}
use shm_comm.Serialize.{Library, Method, serialize}
use shm_comm.Patterns.{on_shm, decode}
use shm_comm.Patterns.Objects.{on_shm-open}
use shm_comm.Core.Objects.{on_object-outcome, objects-on_object_self, on_object-same}
use shm_comm.PubSub.Publisher
use shm_comm.PubSub.Publisher.{Publisher}
use shm_comm.PubSub.Subscriber
use shm_comm.PubSub.Subscriber.{Subscriber}
use shm_comm.PubSub.Channel.{
  Event, send, send_bytes, try_recv, try_recv_bytes, sent, received_bytes, Channel, after_send,
  after_recv, call, run, publish_payload, publish_serialized, feed_call, feed_run, Joined,
}

advance-with_cursor :
    (o : Option Payload) (c' : ℕ) (sub : Subscriber) (s : System)
    → Subscriber.advance (with_cursor o c') (sub, s)
      ≡ (ok o, (record sub { tail = next_cursor (with_cursor o c') sub.tail }, s))
advance-with_cursor none c' sub s = refl
advance-with_cursor (some p) c' sub s = refl

module _ {n z i : ℕ} {sm rm : Method} {c : Channel} {f : Feed Payload}
    (j : Joined n z i sm rm c f) where
  open j use {
    pub_shm, sub_shm, pub_open, sub_open, pub_object, sub_object, sends_by, receives_by, tracks,
  }

  -- A step of the system that keeps both objects.
  rejoined :
      (s : System) (tail : ℕ) (f' : Feed Payload)
      → Tracks n z (s.objects i) tail f'
      → Joined n z i sm rm
          (record c { subscriber = record c.subscriber { tail = tail }; system = s })
          f'
  rejoined s tail f' t = record {
    pub_shm = pub_shm;
    sub_shm = sub_shm;
    pub_open = pub_open;
    sub_open = sub_open;
    pub_object = pub_object;
    sub_object = sub_object;
    sends_by = sends_by;
    receives_by = receives_by;
    tracks = t;
  }

  -- What `write_message` does to the publisher's segment, seen as a publication.
  write_message-publish_payload :
      (w : World Memory) (fuel : ℕ) (p : Payload)
      → ((write_message w fuel p false none true (c.system.objects i)).0
          ≡ (publish_payload z p f).0)
        × Tracks n z
            (write_message w fuel p false none true (c.system.objects i)).1
            c.subscriber.tail
            (publish_payload z p f).1
  unfolding publish_payload
  write_message-publish_payload w fuel p = elim (dec_le (length p + 4) z) [
    | yes room ↦
        rw
          (
            le→leb (length p + 4) z room,
            write_message-overwrite tracks.segment w fuel p false none room,
          )
          (refl, Tracks-publish tracks p room)
    | no big ↦
        rw
          (
            lt→leb (length p + 4) z (omega arith),
            write_message-too_large tracks.segment w fuel p false none true (omega arith),
          )
          (refl, tracks)
  ]

  pub on_shm-publish_payload :
      (w : World Memory) (fuel : ℕ) (p : Payload)
      → let r = on_shm c.publisher.shm (write_message w fuel p false none true) c.system in
        (r.0 ≡ (publish_payload z p f).0)
        × Joined n z i sm rm (after_send c r) (publish_payload z p f).1
  on_shm-publish_payload w fuel p =
      let act = write_message w fuel p false none true in
      let (e, t) = write_message-publish_payload w fuel p in
      rw (on_shm-open act c.system pub_open pub_object) (
        on_object-outcome i act c.system ∙ e,
        rejoined (on_object i act c.system).1 c.subscriber.tail (publish_payload z p f).1
            (rw (objects-on_object_self i act c.system) t),
      )

  pub try_recv_bytes-receive :
      let r = Subscriber.try_recv_bytes (c.subscriber, c.system) in
      (r.0 ≡ ok (receive n f).0) × Joined n z i sm rm (after_recv c r) (receive n f).1
  unfolding Subscriber.try_recv_bytes
  try_recv_bytes-receive =
      let (e, t) = read_message_spsc-receive tracks in
      rw
        (
          on_shm-open (read_message_spsc c.subscriber.tail) c.system sub_open sub_object,
          on_object-same i (read_message_spsc c.subscriber.tail) c.system _ e,
          advance-with_cursor (receive n f).0 _ c.subscriber c.system,
        )
        (refl, rejoined c.system _ (receive n f).1 t)

  send-publish_serialized :
      (w : World Memory) (fuel : ℕ) (o : Outcome Payload)
      → let r =
          continue o c.system
            (λ p. on_shm c.publisher.shm (write_message w fuel p false none true)) in
        (r.0 ≡ (publish_serialized z o f).0)
        × Joined n z i sm rm (after_send c r) (publish_serialized z o f).1
  send-publish_serialized w fuel (ok p) = on_shm-publish_payload w fuel p
  send-publish_serialized w fuel (raised e) = (refl, j)
  send-publish_serialized w fuel running = (refl, j)

  -- Each call answers as the feed's, and leaves the two sides in agreement.
  pub call-feed_call :
      (lib : Library) (w : World Memory) (fuel : ℕ) (e : Event lib)
      → ((call lib w fuel e c).0 ≡ (feed_call lib n z sm rm e f).0)
        × Joined n z i sm rm (call lib w fuel e c).1 (feed_call lib n z sm rm e f).1
  unfolding call feed_call Publisher.send Publisher.send_bytes Subscriber.try_recv
  call-feed_call lib w fuel (send v) =
      let (e, t) = send-publish_serialized w fuel (serialize lib v c.publisher.serialization) in
      rw (← ap (serialize lib v) sends_by) (ap sent e, t)
  call-feed_call lib w fuel (send_bytes b) =
      let (e, t) = on_shm-publish_payload w fuel b in (ap sent e, t)
  call-feed_call lib w fuel try_recv =
      let (e, t) = try_recv_bytes-receive in
      rw (e, ← ap (λ m. decode lib m (receive n f).0) receives_by) (refl, t)
  call-feed_call lib w fuel try_recv_bytes =
      let (e, t) = try_recv_bytes-receive in (ap received_bytes e, t)

-- When the publisher and the subscriber are open on one well-formed segment of n slots and the
-- subscriber's cursor agrees with a feed, any sequence of publications and of polls of the
-- subscriber gives, call by call, the answers of the feed: the publications in order, less whole
-- rounds of n of them that the subscriber was too slow for.
pub run-feed_run :
    (lib : Library) {n z i : ℕ} {sm rm : Method} (w : World Memory) (fuel : ℕ)
    (es : List (Event lib)) {c : Channel} {f : Feed Payload}
    → Joined n z i sm rm c f
    → run lib w fuel es c ≡ feed_run lib n z sm rm es f
unfolding run feed_run
run-feed_run lib w fuel [] j = refl
run-feed_run lib w fuel (e ∷ es) j =
    let (a, j') = call-feed_call j lib w fuel e in ap₂ ◌∷◌ a (run-feed_run lib w fuel es j')
