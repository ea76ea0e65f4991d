-- ===== src/PubSub/Channel/Start.antt =====
-- patterns/pubsub.py: a publisher and then a subscriber, as their `__init__` makes them.
use shm_comm.Prelude.{
  false, ℕ, suc, ◌+◌, ◌*◌, ◌^◌, ◌≤◌, ◌<◌, ◌≡◌, refl, ap, ◌∙◌, Bool, true, some, List, le→leb,
}
use shm_comm.Exec.{Outcome, continue, pure, ok, ◌>>=◌}
use shm_comm.Exec.Spin.{World}
use shm_comm.Memory.{Memory}
use shm_comm.Names.{Name, pub_segment_name, same_refl}
use shm_comm.Core.Header.{idx_head, get_field, get_header, field}
use shm_comm.Core.Segments.{blocked, System, SharedMemory, on_object, lookup, attach_segment}
use shm_comm.Core.Objects.{on_object-same}
use shm_comm.Lifecycle.Init.{zeros, initialised}
use shm_comm.Lifecycle.Create.{created, create_segment-created, object-created, lookup-created}
use shm_comm.Lifecycle.Fresh.{no_publications, fresh-Tracks, head-fresh}
use shm_comm.Lifecycle.Reach.{attach_segment-initialised, object-whole}
use shm_comm.Serialize.{Library, Method}
use shm_comm.PubSub.Publisher
use shm_comm.PubSub.Subscriber
use shm_comm.PubSub.Channel.{Event, Channel, Joined, run, feed_run}
use shm_comm.PubSub.Channel.Calls.{run-feed_run}

-- `int(get_header(shm)[IDX_HEAD])`
read_head :
    (m : Memory)
    → 128 ≤ m.size
    → (get_header >>= λ _. field idx_head) m ≡ (ok (get_field idx_head m), m)
unfolding get_header field
read_head m h = rw (le→leb 128 m.size h)

module _ (granted : Name → ℕ → Bool) (name : Name) (n z : ℕ) (sm rm : Method) (w : World System)
    (fuel timeout : ℕ) (s : System) (some_slot : 0 < n) (few : n < 2 ^ 63) (prefix : 4 ≤ z)
    (narrow : z ≤ 2 ^ 32) (clear : blocked (pub_segment_name name) s ≡ false)
    (grant : granted (pub_segment_name name) (128 + n * z) ≡ true)
    (early : w.clock 0 < w.started + timeout) where
  abbrev handle : SharedMemory
  handle = record { name = pub_segment_name name; object = s.next }

  abbrev fresh : Memory
  fresh = initialised n z (zeros (128 + n * z))

  abbrev started : Channel
  started = record {
    publisher = record { name = name; serialization = sm; shm = some handle };
    subscriber = record { name = name; serialization = rm; shm = some handle; tail = 0 };
    system = created (pub_segment_name name) n z s;
  }

  object : started.system.objects s.next ≡ fresh
  object = object-created (pub_segment_name name) n z s

  found : lookup (pub_segment_name name) started.system.names ≡ some s.next
  found = lookup-created (pub_segment_name name) n z s (pub_segment_name name) ∙ rw same_refl refl

  attached :
      attach_segment w (suc fuel) (pub_segment_name name) timeout started.system
      ≡ (ok handle, started.system)
  attached =
      attach_segment-initialised n z some_slot few prefix narrow started.system s.next object w
        (pub_segment_name name) fuel timeout found early

  head_read :
      on_object s.next (get_header >>= λ _. field idx_head) started.system ≡ (ok 0, started.system)
  head_read = on_object-same s.next (get_header >>= λ _. field idx_head) started.system (ok 0) (
      read_head (started.system.objects s.next)
        (object-whole n z some_slot few prefix narrow started.system s.next object)
      ∙ ap (λ (h : ℕ). (ok h, started.system.objects s.next))
          (ap (get_field idx_head) object ∙ head-fresh n z some_slot few prefix narrow))

  subscribed :
      Subscriber.init w (suc fuel) name timeout rm started.system
      ≡ (ok started.subscriber, started.system)
  unfolding Subscriber.init
  subscribed = rw attached (
      ap {A = Outcome ℕ × System}
        (λ r. continue r.0 r.1 (λ head.
          pure (record { name = name; serialization = rm; shm = some handle; tail = head })))
        head_read)

  published : Publisher.init granted name n z sm s ≡ (ok started.publisher, started.system)
  unfolding Publisher.init
  published =
      rw (create_segment-created granted (pub_segment_name name) n z s few narrow clear grant)

  started-Joined : Joined n z s.next sm rm started no_publications
  started-Joined = record {
    pub_shm = handle;
    sub_shm = handle;
    pub_open = refl;
    sub_open = refl;
    pub_object = refl;
    sub_object = refl;
    sends_by = refl;
    receives_by = refl;
    tracks = rw object (fresh-Tracks n z some_slot few prefix narrow);
  }

  pub init-Joined :
      (c : Channel) × (Publisher.init granted name n z sm s ≡ (ok c.publisher, c.system))
      × (Subscriber.init w (suc fuel) name timeout rm c.system ≡ (ok c.subscriber, c.system))
      × Joined n z s.next sm rm c no_publications
  init-Joined = (started, published, subscribed, started-Joined)

  -- For at least one slot and fewer than 2^63, of 4 to 2^32 bytes, a segment name under which
  -- no object without bytes stands and which the operating system accepts with the size that
  -- results, and a wait to connect that has not timed out when it starts: Publisher's init and
  -- then Subscriber's init succeed, whatever other object stood under the name, and any
  -- sequence of publications and polls on the two objects then gives the answers of the feed
  -- without publications.
  pub init-feed_run :
      (lib : Library) (w' : World Memory) (es : List (Event lib))
      → (c : Channel) × (Publisher.init granted name n z sm s ≡ (ok c.publisher, c.system))
        × (Subscriber.init w (suc fuel) name timeout rm c.system ≡ (ok c.subscriber, c.system))
        × (run lib w' fuel es c ≡ feed_run lib n z sm rm es no_publications)
  init-feed_run lib w' es =
      let (c, publishes, subscribes, j) = init-Joined in
      (c, publishes, subscribes, run-feed_run lib w' fuel es j)
