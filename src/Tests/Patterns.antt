-- ===== src/Tests/Patterns.antt =====
-- Theorems on the patterns and on serialization, at one small system.
use shm_comm.Prelude.{◌+◌, ◌≤◌, ◌≡◌, [], ◌∷◌}
use shm_comm.Buffer.Queue.{contents}
use shm_comm.Lifecycle.Fresh.{no_publications}
use shm_comm.Serialize.{pickle}
use shm_comm.PubSub.Channel
use shm_comm.PubSub.Channel.{Channel, Joined}
use shm_comm.PubSub.Channel.Calls.{run-feed_run}
use shm_comm.ReqRep.Service
use shm_comm.ReqRep.Service.{Service, Boxes}
use shm_comm.ReqRep.Service.Calls.{run-box_run}
use shm_comm.ReqRep.Service.Limit.{accepted_requests, accepted_requests-le}
use shm_comm.Pipeline.Queue
use shm_comm.Pipeline.Queue.{Line, Serving}
use shm_comm.Pipeline.Calls.{run-fifo_run}
use shm_comm.Tests.{
  ring, alone, library, channel, channel-Joined, service, empty_boxes, service-Linked, line,
  line-Serving,
}

run-fifo_run_example :
    Queue.run library alone alone 1
      (Queue.send (7 ∷ [])
        ∷ Queue.try_claim 4
        ∷ Queue.send_bytes (8 ∷ [])
        ∷ Queue.try_claim_bytes 5
        ∷ [])
      line
    ≡ Queue.fifo_run library 2 12 pickle pickle
        (Queue.send (7 ∷ [])
          ∷ Queue.try_claim 4
          ∷ Queue.send_bytes (8 ∷ [])
          ∷ Queue.try_claim_bytes 5
          ∷ [])
        (contents 3 16 ring)
run-fifo_run_example =
    run-fifo_run library alone alone 0
      (Queue.send (7 ∷ [])
        ∷ Queue.try_claim 4
        ∷ Queue.send_bytes (8 ∷ [])
        ∷ Queue.try_claim_bytes 5
        ∷ [])
      line-Serving

run-feed_run_example :
    Channel.run library alone 1
      (Channel.send (7 ∷ [])
        ∷ Channel.try_recv
        ∷ Channel.send_bytes (8 ∷ [])
        ∷ Channel.try_recv_bytes
        ∷ [])
      channel
    ≡ Channel.feed_run library 3 16 pickle pickle
        (Channel.send (7 ∷ [])
          ∷ Channel.try_recv
          ∷ Channel.send_bytes (8 ∷ [])
          ∷ Channel.try_recv_bytes
          ∷ [])
        no_publications
run-feed_run_example =
    run-feed_run library alone 1
      (Channel.send (7 ∷ [])
        ∷ Channel.try_recv
        ∷ Channel.send_bytes (8 ∷ [])
        ∷ Channel.try_recv_bytes
        ∷ [])
      channel-Joined

run-box_run_example :
    Service.run library alone 1
      (Service.send_request (7 ∷ [])
        ∷ Service.try_recv_request
        ∷ Service.send_reply (8 ∷ [])
        ∷ Service.try_recv_reply
        ∷ [])
      service
    ≡ Service.box_run library 2 12 pickle pickle
        (Service.send_request (7 ∷ [])
          ∷ Service.try_recv_request
          ∷ Service.send_reply (8 ∷ [])
          ∷ Service.try_recv_reply
          ∷ [])
        empty_boxes
run-box_run_example =
    run-box_run library alone 0
      (Service.send_request (7 ∷ [])
        ∷ Service.try_recv_request
        ∷ Service.send_reply (8 ∷ [])
        ∷ Service.try_recv_reply
        ∷ [])
      service-Linked

accepted_requests-le_example :
    accepted_requests
        (Service.send_request (7 ∷ [])
          ∷ Service.try_recv_request
          ∷ Service.send_request (8 ∷ [])
          ∷ [])
        (Service.run library alone 1
          (Service.send_request (7 ∷ [])
            ∷ Service.try_recv_request
            ∷ Service.send_request (8 ∷ [])
            ∷ [])
          service)
      + 0
    ≤ 2
accepted_requests-le_example =
    accepted_requests-le library alone 0
      (Service.send_request (7 ∷ [])
        ∷ Service.try_recv_request
        ∷ Service.send_request (8 ∷ [])
        ∷ [])
      service-Linked
