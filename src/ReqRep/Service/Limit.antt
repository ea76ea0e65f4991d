-- ===== src/ReqRep/Service/Limit.antt =====
-- patterns/reqrep.py: how many requests a service can ever carry.
use shm_comm.Prelude.{
  ℕ, Bool, suc, ◌+◌, ◌-◌, ◌≤◌, ◌≡◌, refl, ap, true, false, List, [], ◌∷◌, length, length-append,
  arith,
}
use shm_comm.Exec.{Outcome, ok, raised, running}
use shm_comm.Exec.Spin.{World}
use shm_comm.Memory.{Memory}
use shm_comm.Fifo.{Payload}
use shm_comm.Mailbox
use shm_comm.Mailbox.{Mailbox}
use shm_comm.Serialize.{Library, Method, serialize}
use shm_comm.ReqRep.Service.{
  Event, send_request, send_request_bytes, Answer, sent, Service, run, Boxes, post_serialized,
  box_call,
}
use shm_comm.ReqRep.Service.Links.{Linked}
use shm_comm.ReqRep.Service.Calls.{call-box_call}

module _ {lib : Library} where
  -- A request that was sent with the answer True.
  abbrev pub accepted_request : Event lib → Answer lib → ℕ
  accepted_request (send_request v) (sent (ok true)) = 1
  accepted_request (send_request_bytes p) (sent (ok true)) = 1
  accepted_request _ _ = 0

  unfoldable pub accepted_requests : List (Event lib) → List (Answer lib) → ℕ
  accepted_requests (e ∷ es) (a ∷ rest) = accepted_request e a + accepted_requests es rest
  accepted_requests _ _ = 0

-- A post that is accepted makes the box longer by one, and no other does.
is_true : Outcome Bool → ℕ
is_true (ok true) = 1
is_true _ = 0

is_true-post_serialized :
    (limit longest : ℕ) (o : Outcome Payload) (b : Mailbox)
    → is_true (post_serialized limit longest o b).0 + length b.sent
      ≤ length (post_serialized limit longest o b).1.sent
unfolding is_true Mailbox.post
is_true-post_serialized limit longest (ok p) b = ground (arith, length-append b.sent (p ∷ []))
is_true-post_serialized limit longest (raised e) b = omega arith
is_true-post_serialized limit longest running b = omega arith

accepted-sent_true :
    (lib : Library) (v : lib.Value) (o : Outcome Bool)
    → accepted_request {lib = lib} (send_request v) (sent o) ≡ is_true o
unfolding is_true
accepted-sent_true lib v (ok true) = refl
accepted-sent_true lib v (ok false) = refl
accepted-sent_true lib v (raised e) = refl
accepted-sent_true lib v running = refl

accepted-sent_bytes_true :
    (lib : Library) (p : Payload) (o : Outcome Bool)
    → accepted_request {lib = lib} (send_request_bytes p) (sent o) ≡ is_true o
unfolding is_true
accepted-sent_bytes_true lib p (ok true) = refl
accepted-sent_bytes_true lib p (ok false) = refl
accepted-sent_bytes_true lib p (raised e) = refl
accepted-sent_bytes_true lib p running = refl

length-take : (b : Mailbox) → length (Mailbox.take b).1.sent ≡ length b.sent
unfolding Mailbox.take
length-take b = ground arith

within :
    {n z i k : ℕ} {qm pm : Method} {c : Service} {b : Boxes}
    → Linked n z i k qm pm c b
    → length b.requests.sent ≤ n - 1
within l = omega (arith, l.requests.head, l.requests.segment.head_in)

accepted_request-box_call :
    (lib : Library) (limit longest : ℕ) (qm pm : Method) (e : Event lib) (b : Boxes)
    → accepted_request e (box_call lib limit longest qm pm e b).0 + length b.requests.sent
      ≤ length (box_call lib limit longest qm pm e b).1.requests.sent
unfolding box_call
accepted_request-box_call lib limit longest qm pm (send_request v) b =
    let o = serialize lib v qm in
    omega (
      arith,
      accepted-sent_true lib v (post_serialized limit longest o b.requests).0,
      is_true-post_serialized limit longest o b.requests,
    )
accepted_request-box_call lib limit longest qm pm (send_request_bytes p) b = omega (
  arith,
  accepted-sent_bytes_true lib p (Mailbox.post limit longest p b.requests).0,
  is_true-post_serialized limit longest (ok p) b.requests,
)
accepted_request-box_call lib limit longest qm pm e b = omega (arith, length-take b.requests)

-- When requester and replier are open on two segments of n slots that agree with two boxes, then
-- in any sequence of sends and polls of either side the sends of requests that answer True,
-- together with the requests that were in the box before, are at most n - 1, however many of them
-- the replier has received.
pub accepted_requests-le :
    (lib : Library) {n z i k : ℕ} {qm pm : Method} (w : World Memory) (fuel : ℕ)
    (es : List (Event lib)) {c : Service} {b : Boxes}
    → Linked n z i k qm pm c b
    → accepted_requests es (run lib w (suc fuel) es c) + length b.requests.sent ≤ n - 1
unfolding accepted_requests run
accepted_requests-le lib w fuel [] l = omega (arith, within l)
accepted_requests-le lib {n} {z} {qm} {pm} w fuel (e ∷ es) {c} {b} l =
    let (a, l') = call-box_call l lib w fuel e in
    omega (
      arith,
      ap (accepted_request e) a,
      accepted_request-box_call lib (n - 1) (z - 4) qm pm e b,
      accepted_requests-le lib w fuel es l',
    )
