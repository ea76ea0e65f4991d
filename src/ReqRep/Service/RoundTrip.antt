-- ===== src/ReqRep/Service/RoundTrip.antt =====
-- patterns/reqrep.py: one request and its reply, on boxes that have been read up, call by call.
use shm_comm.Prelude.{ℕ, suc, ◌-◌, ◌≤◌, ◌≡◌, ap, ◌∙◌, Bool, true, Option, some, length}
use shm_comm.Exec.{Outcome, ok}
use shm_comm.Fifo.{Payload}
use shm_comm.Exec.Spin.{World}
use shm_comm.Memory.{Memory}
use shm_comm.Core.Segments.{System}
use shm_comm.Serialize.{Library, Method, serialize, deserialize}
use shm_comm.ReqRep.Replier
use shm_comm.ReqRep.Replier.{Replier}
use shm_comm.ReqRep.Requester
use shm_comm.ReqRep.Requester.{Requester}
use shm_comm.ReqRep.Service.{
  Service, after_send, after_replier, after_requester, Boxes, post_serialized,
}
use shm_comm.ReqRep.Service.Links.{Linked}
use shm_comm.ReqRep.Service.Calls.{request-take, reply-post, reply-take}
use shm_comm.ReqRep.Service.Requests.{send-posted}
use shm_comm.ReqRep.Service.Rounds.{
  HasRoom, added, exchanged, post-added, take-added, requests_as, replies_as, Truthy,
}

-- The command `v` reaches the replier as `v'`, and its answer `a` reaches the requester as `d`; both fit
-- a slot of `z` bytes.
pub record Exchange (lib : Library) (z : ℕ) (qm pm : Method) (v v' a d : lib.Value) (p r : Payload)
    : Type 0 where
  pub command_bytes : serialize lib v qm ≡ ok p
  pub command_fits : length p ≤ z - 4
  pub command_read : deserialize lib p pm ≡ ok v'
  pub command_truthy : Truthy lib v'
  pub reply_bytes : serialize lib a pm ≡ ok r
  pub reply_fits : length r ≤ z - 4
  pub reply_read : deserialize lib r qm ≡ ok d
  pub reply_truthy : Truthy lib d

module _ (lib : Library) {n z i k : ℕ} {qm pm : Method} {c : Service} {b : Boxes}
    (l : Linked n z i k qm pm c b) {v v' a d : lib.Value} {p r : Payload}
    (h : Exchange lib z qm pm v v' a d p r) (requests : HasRoom (n - 1) b.requests)
    (replies : HasRoom (n - 1) b.replies) (w : World Memory) (fuel : ℕ) where
  abbrev pub sent : Outcome Bool × System
  sent = Requester.send lib w (suc fuel) c.requester v c.system

  abbrev pub heard_bytes : Outcome (Option Payload) × (Replier × System)
  heard_bytes = Replier.try_recv_bytes (c.replier, sent.1)

  abbrev pub confirmed : Outcome Bool × System
  confirmed = Replier.send lib w (suc fuel) heard_bytes.1.0 a heard_bytes.1.1

  abbrev pub polled : Outcome (Option Payload) × (Requester × System)
  polled = Requester.try_recv_bytes (c.requester, confirmed.1)

  -- The service behind each of the four calls.
  pub sent-Linked :
      Linked n z i k qm pm (after_send c sent) (record b { requests = added p b.requests })
  sent-Linked =
      requests_as
        (ap (λ o. (post_serialized (n - 1) (z - 4) o b.requests).1) h.command_bytes
          ∙ ap (λ q. q.1) (post-added (n - 1) (z - 4) p b.requests requests h.command_fits))
        (send-posted lib l w fuel v).1

  pub sent-posted : sent.0 ≡ ok true
  sent-posted =
      (send-posted lib l w fuel v).0
      ∙ ap (λ o. (post_serialized (n - 1) (z - 4) o b.requests).0) h.command_bytes
      ∙ ap (λ q. q.0) (post-added (n - 1) (z - 4) p b.requests requests h.command_fits)

  pub heard-Linked :
      (heard_bytes ≡ (ok (some p), heard_bytes.1))
      × Linked n z i k qm pm
          (after_replier (after_send c sent) heard_bytes)
          (record b { requests = exchanged p b.requests })
  heard-Linked =
      let (e, t) = request-take sent-Linked in
      let a = take-added (n - 1) p b.requests requests in
      (ap (λ o. (o, heard_bytes.1)) (e ∙ ap (λ q. ok q.0) a), requests_as (ap (λ q. q.1) a) t)

  pub confirmed-posted :
      (confirmed.0 ≡ ok true)
      × Linked n z i k qm pm
          (after_send (after_replier (after_send c sent) heard_bytes) confirmed)
          (record { requests = exchanged p b.requests; replies = added r b.replies })
  unfolding Replier.send
  confirmed-posted =
      let t = heard-Linked.1 in
      let (e, u) = reply-post t w fuel (serialize lib a heard_bytes.1.0.serialization) in
      let added_on : post_serialized (n - 1) (z - 4) (serialize lib a heard_bytes.1.0.serialization)
            b.replies
          ≡ (ok true, added r b.replies) =
        ap (λ o. post_serialized (n - 1) (z - 4) o b.replies)
          (ap (serialize lib a) t.replies_by ∙ h.reply_bytes)
        ∙ post-added (n - 1) (z - 4) r b.replies replies h.reply_fits in
      (e ∙ ap (λ q. q.0) added_on, replies_as (ap (λ q. q.1) added_on) u)

  pub polled-Linked :
      (polled ≡ (ok (some r), polled.1))
      × Linked n z i k qm pm
          (after_requester
            (after_send (after_replier (after_send c sent) heard_bytes) confirmed)
            polled)
          (record { requests = exchanged p b.requests; replies = exchanged r b.replies })
  polled-Linked =
      let (e, t) = reply-take confirmed-posted.1 in
      let a = take-added (n - 1) r b.replies replies in
      (ap (λ o. (o, polled.1)) (e ∙ ap (λ q. ok q.0) a), replies_as (ap (λ q. q.1) a) t)
