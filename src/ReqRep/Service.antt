-- ===== src/ReqRep/Service.antt =====
-- patterns/reqrep.py: a requester and a replier on one service, in any order of their calls: the calls, and the two boxes
-- that they come to.
pub mod Links
pub mod Calls
pub mod Limit
pub mod Start
pub mod Requests
pub mod Rounds
pub mod RoundTrip
use shm_comm.Prelude.{ℕ, Bool, true, false, Option, none, some, List, [], ◌∷◌}
use shm_comm.Exec.{Outcome, ok, raised, running}
use shm_comm.Exec.Spin.{World}
use shm_comm.Memory.{Memory}
use shm_comm.Core.Segments.{System}
use shm_comm.Fifo.{Payload}
use shm_comm.Mailbox
use shm_comm.Mailbox.{Mailbox}
use shm_comm.Serialize.{Library, Method, serialize}
use shm_comm.Patterns.{decode}
use shm_comm.ReqRep.Replier
use shm_comm.ReqRep.Replier.{Replier}
use shm_comm.ReqRep.Requester
use shm_comm.ReqRep.Requester.{Requester}

module _ (lib : Library) where
  -- One call of one of the two objects; a receive is one poll.
  pub data Event : Type 0 where
    send_request : lib.Value → Event
    send_request_bytes : Payload → Event
    try_recv_request : Event
    try_recv_request_bytes : Event
    send_reply : lib.Value → Event
    send_reply_bytes : Payload → Event
    try_recv_reply : Event
    try_recv_reply_bytes : Event

  pub data Answer : Type 0 where
    sent : Outcome Bool → Answer
    received : Outcome (Option lib.Value) → Answer
    received_bytes : Outcome (Option Payload) → Answer

pub record Service : Type 0 where
  pub requester : Requester
  pub replier : Replier
  pub system : System

abbrev pub after_send : {A : Type 0} → Service → A × System → Service
after_send c r = record c { system = r.1 }

abbrev pub after_requester : {A : Type 0} → Service → A × (Requester × System) → Service
after_requester c r = record c { requester = r.1.0; system = r.1.1 }

abbrev pub after_replier : {A : Type 0} → Service → A × (Replier × System) → Service
after_replier c r = record c { replier = r.1.0; system = r.1.1 }

module _ (lib : Library) (w : World Memory) (fuel : ℕ) where
  unfoldable pub call : Event lib → Service → Answer lib × Service
  call (send_request v) c =
      let r = Requester.send lib w fuel c.requester v c.system in (sent r.0, after_send c r)
  call (send_request_bytes b) c =
      let r = Requester.send_bytes w fuel c.requester b c.system in (sent r.0, after_send c r)
  call try_recv_request c =
      let r = Replier.try_recv lib (c.replier, c.system) in (received r.0, after_replier c r)
  call try_recv_request_bytes c =
      let r = Replier.try_recv_bytes (c.replier, c.system) in
      (received_bytes r.0, after_replier c r)
  call (send_reply v) c =
      let r = Replier.send lib w fuel c.replier v c.system in (sent r.0, after_send c r)
  call (send_reply_bytes b) c =
      let r = Replier.send_bytes w fuel c.replier b c.system in (sent r.0, after_send c r)
  call try_recv_reply c =
      let r = Requester.try_recv lib (c.requester, c.system) in (received r.0, after_requester c r)
  call try_recv_reply_bytes c =
      let r = Requester.try_recv_bytes (c.requester, c.system) in
      (received_bytes r.0, after_requester c r)

  unfoldable pub run : List (Event lib) → Service → List (Answer lib)
  run [] c = []
  run (e ∷ es) c = (call e c).0 ∷ run es (call e c).1

  -- The service after a sequence of calls.
  unfoldable pub after : List (Event lib) → Service → Service
  after [] c = c
  after (e ∷ es) c = after es (call e c).1

-- The abstract service: a box for each direction.
pub record Boxes : Type 0 where
  pub requests : Mailbox
  pub replies : Mailbox

abbrev pub post_serialized : ℕ → ℕ → Outcome Payload → Mailbox → Outcome Bool × Mailbox
post_serialized limit longest (ok p) b = Mailbox.post limit longest p b
post_serialized limit longest (raised e) b = (raised e, b)
post_serialized limit longest running b = (running, b)

module _ (lib : Library) (limit longest : ℕ) (req_method rep_method : Method) where
  unfoldable pub box_call : Event lib → Boxes → Answer lib × Boxes
  box_call (send_request v) b =
      let r = post_serialized limit longest (serialize lib v req_method) b.requests in
      (sent r.0, record b { requests = r.1 })
  box_call (send_request_bytes p) b =
      let r = Mailbox.post limit longest p b.requests in (sent r.0, record b { requests = r.1 })
  box_call try_recv_request b =
      let r = Mailbox.take b.requests in
      (received (decode lib rep_method r.0), record b { requests = r.1 })
  box_call try_recv_request_bytes b =
      let r = Mailbox.take b.requests in (received_bytes (ok r.0), record b { requests = r.1 })
  box_call (send_reply v) b =
      let r = post_serialized limit longest (serialize lib v rep_method) b.replies in
      (sent r.0, record b { replies = r.1 })
  box_call (send_reply_bytes p) b =
      let r = Mailbox.post limit longest p b.replies in (sent r.0, record b { replies = r.1 })
  box_call try_recv_reply b =
      let r = Mailbox.take b.replies in
      (received (decode lib req_method r.0), record b { replies = r.1 })
  box_call try_recv_reply_bytes b =
      let r = Mailbox.take b.replies in (received_bytes (ok r.0), record b { replies = r.1 })

  unfoldable pub box_run : List (Event lib) → Boxes → List (Answer lib)
  box_run [] b = []
  box_run (e ∷ es) b = (box_call e b).0 ∷ box_run es (box_call e b).1
