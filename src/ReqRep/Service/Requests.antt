-- ===== src/ReqRep/Service/Requests.antt =====
-- patterns/reqrep.py: `Requester.request` on a service, whose own request and the replies' box are independent.
use shm_comm.Prelude.{
  ℕ, suc, ◌+◌, ◌-◌, ◌≤◌, ◌<◌, ◌≡◌, ap, ◌∙◌, false, Bool, Option, none, some, arith, ◌||◌,
}
use shm_comm.Exec.{Outcome, ok, raised, shm_timeout_error}
use shm_comm.Exec.Spin.{World}
use shm_comm.Memory.{Memory}
use shm_comm.Core.Segments.{System}
use shm_comm.Fifo.{Payload}
use shm_comm.Mailbox
use shm_comm.Mailbox.{Mailbox}
use shm_comm.Serialize.{Library, Method, serialize, deserialize}
use shm_comm.Utils.Poll.{poll_until-first, poll_until-never}
use shm_comm.Patterns.{decode}
use shm_comm.ReqRep.Requester
use shm_comm.ReqRep.Requester.{Requester}
use shm_comm.ReqRep.Service.{Service, after_send, Boxes, post_serialized}
use shm_comm.ReqRep.Service.Links.{Linked, on_shm-take}
use shm_comm.ReqRep.Service.Calls.{request-post, reply-take}

module _ (lib : Library) where
  pub try_recv-found :
      (st st' : Requester × System) (raw : Payload) (r : lib.Value)
      → Requester.try_recv_bytes st ≡ (ok (some raw), st')
      → deserialize lib raw st.0.serialization ≡ ok r
      → Requester.try_recv lib st ≡ (ok (some r), st')
  unfolding Requester.try_recv decode
  try_recv-found st st' raw r e d = rw (e, d)

  pub try_recv-nothing :
      (st st' : Requester × System)
      → Requester.try_recv_bytes st ≡ (ok none, st')
      → Requester.try_recv lib st ≡ (ok none, st')
  unfolding Requester.try_recv decode
  try_recv-nothing st st' e = rw e

  -- A reply that is there when the request has been sent is the one that is returned.
  request-found :
      (w : World Memory) (w' : World (Requester × System)) (fuel : ℕ) (v : lib.Value)
      (timeout : Option ℕ) (q : Requester) (s s' : System) (x : Bool) (r : lib.Value)
      (st : Requester × System)
      → Requester.send lib w (suc fuel) q v s ≡ (ok x, s')
      → Requester.try_recv lib (q, s') ≡ (ok (some r), st)
      → (lib.is_none r || lib.is_false r) ≡ false
      → Requester.request lib w w' (suc fuel) v timeout (q, s) ≡ (ok r, st)
  unfolding Requester.request Requester.recv
  request-found w w' fuel v timeout q s s' x r st e f truthy = rw (
    e,
    poll_until-first (λ u. lib.is_none u || lib.is_false u) (Requester.try_recv lib) w' timeout
        (λ _. (q, s')) (λ _. (q, s')) 0 (suc fuel) r st (λ i lt. absurd (omega arith)) (omega arith)
        f truthy,
  )

  -- A reply that the receive comes to is the one that is returned.
  pub request-received :
      (w : World Memory) (w' : World (Requester × System)) (fuel : ℕ) (v : lib.Value)
      (timeout : Option ℕ) (q : Requester) (s s' : System) (x : Bool) (r : lib.Value)
      (st : Requester × System)
      → Requester.send lib w fuel q v s ≡ (ok x, s')
      → Requester.recv lib w' fuel timeout (q, s') ≡ (ok (some r), st)
      → Requester.request lib w w' fuel v timeout (q, s) ≡ (ok r, st)
  unfolding Requester.request
  request-received w w' fuel v timeout q s s' x r st e f = rw (e, f)

  -- A poll for the reply that gives up is the timeout error.
  request-lost :
      (w : World Memory) (w' : World (Requester × System)) (fuel : ℕ) (v : lib.Value) (timeout : ℕ)
      (q : Requester) (s s' : System) (x : Bool) (st : Requester × System)
      → Requester.send lib w (suc fuel) q v s ≡ (ok x, s')
      → Requester.recv lib w' (suc fuel) (some timeout) (q, s') ≡ (ok none, st)
      → Requester.request lib w w' (suc fuel) v (some timeout) (q, s)
        ≡ (raised shm_timeout_error, st)
  unfolding Requester.request
  request-lost w w' fuel v timeout q s s' x st e f = rw (e, f)

module _ (lib : Library) {n z i k : ℕ} {qm pm : Method} {c : Service} {b : Boxes}
    (l : Linked n z i k qm pm c b) (w : World Memory) (fuel : ℕ) (v : lib.Value) where
  abbrev posted_request : Outcome Bool × Mailbox
  posted_request = post_serialized (n - 1) (z - 4) (serialize lib v qm) b.requests

  -- The service after the request was sent, and after the poll for the reply.
  abbrev sent_request : Outcome Bool × System
  sent_request = Requester.send lib w (suc fuel) c.requester v c.system

  abbrev polled : Outcome (Option Payload) × (Requester × System)
  polled = Requester.try_recv_bytes (c.requester, sent_request.1)

  pub send-posted :
      (sent_request.0 ≡ posted_request.0)
      × Linked n z i k qm pm (after_send c sent_request) (record b { requests = posted_request.1 })
  unfolding Requester.send
  send-posted =
      let (e, t) = request-post l w fuel (serialize lib v c.requester.serialization) in
      rw (← ap (serialize lib v) l.requests_by) (e, t)

  pub nothing_polled :
      (Mailbox.take b.replies).0 ≡ none
      → Requester.try_recv_bytes (c.requester, sent_request.1)
        ≡ (ok none, (c.requester, sent_request.1))
  unfolding Requester.try_recv_bytes
  nothing_polled empty =
      let t = send-posted.1 in rw (on_shm-take sent_request.1 t.rep_in t.replies, empty)

  module _ (w' : World (Requester × System)) where
    -- When requester and replier are open on two segments that agree with two boxes, the
    -- request is accepted or finds its box full, and a reply lies unread in the box of the
    -- replies that is deserialized to a value other than None and False, then `request`
    -- returns that reply, whatever it answers, and leaves the service in agreement with the
    -- boxes, the request posted and that reply taken.
    pub request-unread :
        (timeout : Option ℕ) (x : Bool) (raw : Payload) (r : lib.Value)
        → posted_request.0 ≡ ok x
        → (Mailbox.take b.replies).0 ≡ some raw
        → deserialize lib raw qm ≡ ok r
        → (lib.is_none r || lib.is_false r) ≡ false
        → (q : Requester) × (s : System) × (Requester.request lib w w'
              (suc fuel)
              v
              timeout
              (c.requester, c.system)
            ≡ (ok r, (q, s)))
          × Linked n z i k qm pm
              (record c { requester = q; system = s })
              (record { requests = posted_request.1; replies = (Mailbox.take b.replies).1 })
    request-unread timeout x raw r posted unread decoded truthy =
        let (e, t) = send-posted in
        let (f, u) = reply-take t in
        (
          polled.1.0,
          polled.1.1,
          request-found lib w w' fuel v timeout c.requester c.system sent_request.1 x r polled.1
              (ap (λ o. (o, sent_request.1)) (e ∙ posted))
              (try_recv-found lib (c.requester, sent_request.1) polled.1 raw r
                (ap (λ o. (o, polled.1)) (f ∙ ap ok unread))
                (ap (deserialize lib raw) l.requests_by ∙ decoded))
              truthy,
          u,
        )

    -- When requester and replier are open on two segments that agree with two boxes, the
    -- request is accepted or finds its box full, the box of the replies has no unread one,
    -- the other processes let no poll find one, and the clock has passed the deadline by a
    -- round that is within the rounds given, then `request` raises the timeout error.
    pub request-unanswered :
        (timeout round : ℕ) (x : Bool)
        → posted_request.0 ≡ ok x
        → (Mailbox.take b.replies).0 ≡ none
        → ((j : ℕ) (st : Requester × System)
            → Requester.try_recv lib st ≡ (ok none, st)
            → Requester.try_recv lib (w'.others j st) ≡ (ok none, w'.others j st))
        → w'.started + timeout ≤ w'.clock round
        → round < suc fuel
        → (Requester.request lib w w' (suc fuel) v (some timeout) (c.requester, c.system)).0
          ≡ raised shm_timeout_error
    unfolding Requester.recv
    request-unanswered timeout round x posted empty kept late enough =
        let (e, t) = send-posted in
        let (st, f) =
          poll_until-never (λ u. lib.is_none u || lib.is_false u) (Requester.try_recv lib) w'
            (suc fuel) timeout round (c.requester, sent_request.1)
            (try_recv-nothing lib (c.requester, sent_request.1) (c.requester, sent_request.1)
              (nothing_polled empty))
            kept late enough in
        ap (λ r. r.0)
          (request-lost lib w w' fuel v timeout c.requester c.system sent_request.1 x st
            (ap (λ o. (o, sent_request.1)) (e ∙ posted)) f)
