-- ===== src/ReqRep/Service/Calls.antt =====
-- patterns/reqrep.py: the calls on a service against the two boxes.
use shm_comm.Prelude.{
  ℕ, suc, ◌-◌, ◌≡◌, refl, ap, ap₂, sym, false, Bool, Option, none, some, List, [], ◌∷◌,
}
use shm_comm.Exec.{Outcome, ok, raised, running, continue}
use shm_comm.Exec.Spin.{World}
use shm_comm.Memory.{Memory}
use shm_comm.Core.Segments.{System}
use shm_comm.Fifo.{Payload}
use shm_comm.Mailbox
use shm_comm.Mailbox.{Mailbox}
use shm_comm.Buffer.{write_message}
use shm_comm.Buffer.Exchange.{Posted, read_message_spsc-take}
use shm_comm.Buffer.Subscription.{with_cursor, next_cursor}
use shm_comm.Serialize.{Library, Method, serialize}
use shm_comm.Patterns.{on_shm, decode}
use shm_comm.ReqRep.Replier
use shm_comm.ReqRep.Replier.{Replier}
use shm_comm.ReqRep.Requester
use shm_comm.ReqRep.Requester.{Requester}
use shm_comm.ReqRep.Service.{
  Event, send_request, send_request_bytes, try_recv_request, try_recv_request_bytes, send_reply,
  send_reply_bytes, try_recv_reply, try_recv_reply_bytes, sent, received_bytes, Service, after_send,
  after_requester, after_replier, call, run, Boxes, post_serialized, box_call, box_run,
}
use shm_comm.ReqRep.Service.Links.{Linked, on_shm-post, on_shm-take}

advance-replier :
    (o : Option Payload) (c' : ℕ) (r : Replier) (s : System)
    → Replier.advance (with_cursor o c') (r, s)
      ≡ (ok o, (record r { req_tail = next_cursor (with_cursor o c') r.req_tail }, s))
advance-replier none c' r s = refl
advance-replier (some p) c' r s = refl

advance-requester :
    (o : Option Payload) (c' : ℕ) (r : Requester) (s : System)
    → Requester.advance (with_cursor o c') (r, s)
      ≡ (ok o, (record r { rep_tail = next_cursor (with_cursor o c') r.rep_tail }, s))
advance-requester none c' r s = refl
advance-requester (some p) c' r s = refl

module _ {n z i k : ℕ} {qm pm : Method} {c : Service} {b : Boxes}
    (l : Linked n z i k qm pm c b) where
  open l use {apart, req_out, req_in, rep_out, rep_in, requests_by, replies_by, requests, replies}

  -- The service with new cursors and a new system, where both objects still hold their boxes.
  relinked :
      (s : System) (req_tail rep_tail : ℕ) (b' : Boxes)
      → Posted n z (s.objects i) req_tail b'.requests
      → Posted n z (s.objects k) rep_tail b'.replies
      → Linked n z i k qm pm
          (record {
            requester = record c.requester { rep_tail = rep_tail };
            replier = record c.replier { req_tail = req_tail };
            system = s;
          })
          b'
  relinked s req_tail rep_tail b' q p = record {
    apart = apart;
    req_out = req_out;
    req_in = req_in;
    rep_out = rep_out;
    rep_in = rep_in;
    requests_by = requests_by;
    replies_by = replies_by;
    requests = q;
    replies = p;
  }

  module _ (w : World Memory) (fuel : ℕ) where
    abbrev request_write : Payload → Outcome Bool × System
    request_write p =
        on_shm c.requester.req_shm (write_message w (suc fuel) p false none false) c.system

    abbrev reply_write : Payload → Outcome Bool × System
    reply_write p =
        on_shm c.replier.rep_shm (write_message w (suc fuel) p false none false) c.system

    pub request-post :
        (o : Outcome Payload)
        → let r =
            continue o c.system
              (λ p. on_shm c.requester.req_shm (write_message w (suc fuel) p false none false)) in
          let q = post_serialized (n - 1) (z - 4) o b.requests in
          (r.0 ≡ q.0) × Linked n z i k qm pm (after_send c r) (record b { requests = q.1 })
    request-post (ok p) =
        let (e, t, same) = on_shm-post c.system req_out requests w fuel p in
        (
          e,
          relinked (request_write p).1 c.replier.req_tail c.requester.rep_tail
              (record b { requests = (Mailbox.post (n - 1) (z - 4) p b.requests).1 }) t
              (rw (same k apart) replies),
        )
    request-post (raised e) = (refl, l)
    request-post running = (refl, l)

    pub reply-post :
        (o : Outcome Payload)
        → let r =
            continue o c.system
              (λ p. on_shm c.replier.rep_shm (write_message w (suc fuel) p false none false)) in
          let q = post_serialized (n - 1) (z - 4) o b.replies in
          (r.0 ≡ q.0) × Linked n z i k qm pm (after_send c r) (record b { replies = q.1 })
    reply-post (ok p) =
        let (e, t, same) = on_shm-post c.system rep_out replies w fuel p in
        (
          e,
          relinked (reply_write p).1 c.replier.req_tail c.requester.rep_tail
              (record b { replies = (Mailbox.post (n - 1) (z - 4) p b.replies).1 })
              (rw (same i (λ e. apart (sym e))) requests) t,
        )
    reply-post (raised e) = (refl, l)
    reply-post running = (refl, l)

  pub request-take :
      let r = Replier.try_recv_bytes (c.replier, c.system) in
      (r.0 ≡ ok (Mailbox.take b.requests).0)
      × Linked n z i k qm pm
          (after_replier c r)
          (record b { requests = (Mailbox.take b.requests).1 })
  unfolding Replier.try_recv_bytes
  request-take =
      rw
        (
          on_shm-take c.system req_in requests,
          advance-replier (Mailbox.take b.requests).0 _ c.replier c.system,
        )
        (
          refl,
          relinked c.system _ c.requester.rep_tail
              (record b { requests = (Mailbox.take b.requests).1 })
              (read_message_spsc-take requests).1 replies,
        )

  pub reply-take :
      let r = Requester.try_recv_bytes (c.requester, c.system) in
      (r.0 ≡ ok (Mailbox.take b.replies).0)
      × Linked n z i k qm pm
          (after_requester c r)
          (record b { replies = (Mailbox.take b.replies).1 })
  unfolding Requester.try_recv_bytes
  reply-take =
      rw
        (
          on_shm-take c.system rep_in replies,
          advance-requester (Mailbox.take b.replies).0 _ c.requester c.system,
        )
        (
          refl,
          relinked c.system c.replier.req_tail _ (record b { replies = (Mailbox.take b.replies).1 })
              requests (read_message_spsc-take replies).1,
        )

  -- Each call answers as the boxes do, and leaves the two sides in agreement.
  pub call-box_call :
      (lib : Library) (w : World Memory) (fuel : ℕ) (e : Event lib)
      → let r = call lib w (suc fuel) e c in
        let q = box_call lib (n - 1) (z - 4) qm pm e b in (r.0 ≡ q.0) × Linked n z i k qm pm r.1 q.1
  unfolding call box_call Requester.send Requester.send_bytes Requester.try_recv Replier.send
      Replier.send_bytes Replier.try_recv
  call-box_call lib w fuel (send_request v) =
      let (e, t) = request-post w fuel (serialize lib v c.requester.serialization) in
      rw (← ap (serialize lib v) requests_by) (ap sent e, t)
  call-box_call lib w fuel (send_request_bytes p) =
      let (e, t) = request-post w fuel (ok p) in (ap sent e, t)
  call-box_call lib w fuel try_recv_request =
      let (e, t) = request-take in
      rw (e, ← ap (λ m. decode lib m (Mailbox.take b.requests).0) replies_by) (refl, t)
  call-box_call lib w fuel try_recv_request_bytes =
      let (e, t) = request-take in (ap received_bytes e, t)
  call-box_call lib w fuel (send_reply v) =
      let (e, t) = reply-post w fuel (serialize lib v c.replier.serialization) in
      rw (← ap (serialize lib v) replies_by) (ap sent e, t)
  call-box_call lib w fuel (send_reply_bytes p) =
      let (e, t) = reply-post w fuel (ok p) in (ap sent e, t)
  call-box_call lib w fuel try_recv_reply =
      let (e, t) = reply-take in
      rw (e, ← ap (λ m. decode lib m (Mailbox.take b.replies).0) requests_by) (refl, t)
  call-box_call lib w fuel try_recv_reply_bytes =
      let (e, t) = reply-take in (ap received_bytes e, t)

-- When the requester and the replier are open on two different well-formed segments, and each
-- reader's cursor agrees with its box, any sequence of sends and polls of either side gives, call
-- by call, the answers of two boxes, each of which takes at most n - 1 payloads in all, read or
-- not, and hands them out once and in order.
pub run-box_run :
    (lib : Library) {n z i k : ℕ} {qm pm : Method} (w : World Memory) (fuel : ℕ)
    (es : List (Event lib)) {c : Service} {b : Boxes}
    → Linked n z i k qm pm c b
    → run lib w (suc fuel) es c ≡ box_run lib (n - 1) (z - 4) qm pm es b
unfolding run box_run
run-box_run lib w fuel [] l = refl
run-box_run lib w fuel (e ∷ es) l =
    let (a, l') = call-box_call l lib w fuel e in ap₂ ◌∷◌ a (run-box_run lib w fuel es l')
