-- ===== src/Tests/Starts.antt =====
-- Theorems on the patterns from their `__init__` on, and on the cleanup helpers, at one small system.
use shm_comm.Prelude.{ℕ, ◌≡◌, refl, Bool, true, false, none, List, [], ◌∷◌, arith, if◌then◌else◌}
use shm_comm.Exec.{ok}
use shm_comm.Names.{
  Name, codes, same, pub_kind, segment_name, pub_segment_name, push_segment_name, req_segment_name,
  rep_segment_name,
}
use shm_comm.Core.Header.{set_field}
use shm_comm.Lifecycle.Init.{initialised}
use shm_comm.Lifecycle.Refused.{has_slash}
use shm_comm.Core.Segments.{System, blocked, lookup}
use shm_comm.Serialize.{pickle}
use shm_comm.PubSub.Publisher
use shm_comm.PubSub.Subscriber
use shm_comm.PubSub.Channel
use shm_comm.PubSub.Channel.{Channel}
use shm_comm.PubSub.Channel.Start.{init-feed_run}
use shm_comm.Pipeline.Pusher
use shm_comm.Pipeline.Puller
use shm_comm.Pipeline.Queue
use shm_comm.Pipeline.Queue.{Line}
use shm_comm.Pipeline.Start.{init-fifo_run}
use shm_comm.ReqRep.Replier
use shm_comm.ReqRep.Requester
use shm_comm.ReqRep.Service
use shm_comm.ReqRep.Service.{Service}
use shm_comm.ReqRep.Service.Start.{no_messages, init-box_run}
use shm_comm.Lifecycle.Fresh.{no_publications}
use shm_comm.Utils.Platform.{platform_name}
use shm_comm.Utils.Cleanup.{
  force_unlink, list_segments, listed, force_unlink_lem, list_segments_lem,
}
use shm_comm.Tests.{alone, system, library}

init-feed_run_example :
    (c : Channel) × (Publisher.init (λ name size. true) (codes "b") 3 16 pickle system
      ≡ (ok c.publisher, c.system))
    × (Subscriber.init alone 1 (codes "b") 5 pickle c.system ≡ (ok c.subscriber, c.system))
    × (Channel.run library alone 0 (Channel.send (7 ∷ []) ∷ Channel.try_recv ∷ []) c
        ≡ Channel.feed_run library 3 16 pickle pickle
            (Channel.send (7 ∷ []) ∷ Channel.try_recv ∷ [])
            no_publications)
unfolding blocked lookup same pub_segment_name
init-feed_run_example =
    init-feed_run (λ name size. true) (codes "b") 3 16 pickle pickle alone 0 5 system (omega arith)
      (omega arith) (omega arith) (omega arith) refl refl (omega arith) library alone
      (Channel.send (7 ∷ []) ∷ Channel.try_recv ∷ [])

init-fifo_run_example :
    (c : Line) × (Pusher.init (λ name size. true) (codes "b") 3 16 pickle system
      ≡ (ok c.pusher, c.system))
    × ((k : ℕ) → Puller.init alone 1 (codes "b") 5 pickle c.system ≡ (ok (c.pullers k), c.system))
    × (Queue.run library alone alone 1 (Queue.send (7 ∷ []) ∷ Queue.try_claim 1 ∷ []) c
        ≡ Queue.fifo_run library 2 12 pickle pickle
            (Queue.send (7 ∷ []) ∷ Queue.try_claim 1 ∷ [])
            [])
unfolding blocked lookup same push_segment_name
init-fifo_run_example =
    init-fifo_run (λ name size. true) (codes "b") 3 16 pickle pickle alone 0 5 system (omega arith)
      (omega arith) (omega arith) (omega arith) refl refl (omega arith) refl library alone alone
      (Queue.send (7 ∷ []) ∷ Queue.try_claim 1 ∷ [])

init-box_run_example :
    (c : Service) × (Replier.init (λ name size. true) (codes "b") 3 16 pickle system
      ≡ (ok c.replier, c.system))
    × (Requester.init alone alone 1 (codes "b") 5 pickle c.system ≡ (ok c.requester, c.system))
    × (Service.run library alone 1 (Service.send_request (7 ∷ []) ∷ Service.try_recv_request ∷ []) c
        ≡ Service.box_run library 2 12 pickle pickle
            (Service.send_request (7 ∷ []) ∷ Service.try_recv_request ∷ [])
            no_messages)
unfolding blocked lookup same req_segment_name rep_segment_name
init-box_run_example =
    init-box_run (λ name size. true) (codes "b") 3 16 pickle pickle alone alone 0 5 system
      (omega arith) (omega arith) (omega arith) (omega arith) refl refl refl refl (omega arith)
      (omega arith) library alone (Service.send_request (7 ∷ []) ∷ Service.try_recv_request ∷ [])

-- Linux accepts no name with a slash; this one accepts all others.
abbrev slashless : Name → ℕ → Bool
slashless name size = if has_slash name then false else true

force_unlink_lem_example :
    (s' : System) × (force_unlink (codes "a") system ≡ (ok true, s'))
    × (s'.objects ≡ system.objects)
    × ((other : Name)
        → lookup other s'.names
          ≡ (if same (codes "a") other then none else lookup other system.names))
unfolding blocked lookup same initialised set_field
force_unlink_lem_example = force_unlink_lem (codes "a") system

abbrev published : System
published = record system { names = (codes "shmcomm_pub_a", 0) ∷ [] }

list_segments_lem_example :
    (names : List Name) × (list_segments (codes "linux") published ≡ (ok names, published))
    × (listed (segment_name pub_kind (codes "a")) names ≡ true)
unfolding lookup same segment_name platform_name
list_segments_lem_example = list_segments_lem (codes "linux") pub_kind (codes "a") published 0 refl
