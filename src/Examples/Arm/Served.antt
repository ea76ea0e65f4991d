-- ===== src/Examples/Arm/Served.antt =====
-- examples/reqrep_example.py: a command of the client that the server answers while the client waits.
use shm_comm.Prelude.{
  ℕ, zero, suc, sym, ◌+◌, ◌-◌, ◌*◌, ◌<◌, ◌≡◌, refl, ap, ◌∙◌, Bool, true, Option, none, some, lt→leb,
  le→ltb, length, arith, ◌||◌,
}
use shm_comm.Exec.{Outcome, ok}
use shm_comm.Exec.Spin.{World, expired, deadline}
use shm_comm.Memory.{Memory}
use shm_comm.Core.Segments.{System}
use shm_comm.Fifo.{Payload}
use shm_comm.Serialize.{Library, Method, deserialize}
use shm_comm.Exec.Waiting.{Waits}
use shm_comm.Mailbox
use shm_comm.Utils.{poll_once}
use shm_comm.Utils.Poll.{poll_until-first, poll_once-nothing}
use shm_comm.ReqRep.Replier.{Replier}
use shm_comm.ReqRep.Requester
use shm_comm.ReqRep.Requester.{Requester}
use shm_comm.ReqRep.Service.{Service, Boxes}
use shm_comm.ReqRep.Service.Links.{Linked}
use shm_comm.ReqRep.Service.Requests.{
  request-received, try_recv-found, try_recv-nothing, nothing_polled,
}
use shm_comm.ReqRep.Service.Rounds.{HasRoom, exchanged, replier-recv}
use shm_comm.ReqRep.Service.RoundTrip
use shm_comm.ReqRep.Service.RoundTrip.{Exchange}
use shm_comm.Examples.Arm.{Dicts, respond, serve_round, ask}

module _ (lib : Library) (dicts : Dicts lib) {n z i k : ℕ} {qm pm : Method} {c : Service}
    {b : Boxes} (l : Linked n z i k qm pm c b) {v v' a d : lib.Value} {p r : Payload}
    (h : Exchange lib z qm pm v v' a d p r)
    (answers : (st : Replier × System) → respond lib dicts v' st ≡ (ok a, st))
    (requests : HasRoom (n - 1) b.requests) (replies : HasRoom (n - 1) b.replies) (w : World Memory)
    (wr : World (Replier × System)) (fuel second : ℕ) where
  abbrev sent : Outcome Bool × System
  sent = RoundTrip.sent lib l h requests replies w (suc fuel)

  abbrev heard_bytes : Outcome (Option Payload) × (Replier × System)
  heard_bytes = RoundTrip.heard_bytes lib l h requests replies w (suc fuel)

  abbrev confirmed : Outcome Bool × System
  confirmed = RoundTrip.confirmed lib l h requests replies w (suc fuel)

  abbrev polled : Outcome (Option Payload) × (Requester × System)
  polled = RoundTrip.polled lib l h requests replies w (suc fuel)

  served :
      serve_round lib dicts w wr (suc (suc fuel)) second (c.replier, sent.1)
      ≡ (ok tt, (heard_bytes.1.0, confirmed.1))
  unfolding serve_round
  served =
      let args = RoundTrip.heard-Linked lib l h requests replies w (suc fuel) in
      rw
        (
          replier-recv lib wr (suc fuel) (some (5 * second)) (c.replier, sent.1) heard_bytes.1 p v'
              args.0 (ap (deserialize lib p) l.replies_by ∙ h.command_read) h.command_truthy,
          answers heard_bytes.1,
          (RoundTrip.confirmed-posted lib l h requests replies w (suc fuel)).0,
        )
        refl

  -- The client before and after the server's round.
  abbrev waiting : ℕ → Requester × System
  waiting zero = (c.requester, sent.1)
  waiting (suc j) = (c.requester, confirmed.1)

  nothing_yet : (Mailbox.take b.replies).0 ≡ none
  unfolding Mailbox.take
  nothing_yet =
      rw (le→ltb b.replies.read (length b.replies.sent) (omega (arith, replies.all_read))) refl

  module _ (wq : World (Requester × System))
      (others : (s : System)
        → wq.others 0 (c.requester, s)
          ≡ (c.requester, (serve_round lib dicts w wr (suc (suc fuel)) second (c.replier, s)).1.1))
      (early : wq.clock 0 < wq.started + 3 * second) where
    waits :
        (j : ℕ)
        → j < 1
        → Waits wq
            (deadline wq (some (3 * second)))
            (ok none)
            (poll_once (λ u. lib.is_none u || lib.is_false u) (Requester.try_recv lib))
            waiting
            (λ _. (c.requester, sent.1))
            j
    unfolding deadline expired
    waits zero lt = (
      poll_once-nothing (λ u. lib.is_none u || lib.is_false u) (Requester.try_recv lib)
          (c.requester, sent.1) (c.requester, sent.1)
          (try_recv-nothing lib (c.requester, sent.1) (c.requester, sent.1)
            (nothing_polled lib l w (suc fuel) v nothing_yet)),
      lt→leb (wq.started + 3 * second) (wq.clock 0) early,
      ap (λ o. (c.requester, o.1.1)) (sym served) ∙ sym (others sent.1),
    )
    waits (suc j) lt = absurd (omega arith)

    replied :
        Requester.recv lib wq (suc (suc fuel)) (some (3 * second)) (c.requester, sent.1)
        ≡ (ok (some d), polled.1)
    unfolding Requester.recv
    replied =
        poll_until-first (λ u. lib.is_none u || lib.is_false u) (Requester.try_recv lib) wq
          (some (3 * second)) waiting (λ _. (c.requester, sent.1)) 1 (suc (suc fuel)) d polled.1
          waits (omega arith)
          (try_recv-found lib (c.requester, confirmed.1) polled.1 r d
            (RoundTrip.polled-Linked lib l h requests replies w (suc fuel)).0
            (ap (deserialize lib r) l.requests_by ∙ h.reply_read))
          h.reply_truthy

    -- When requester and replier are open on two segments that agree with two boxes, all of
    -- whose payloads have been read and which take one more, the command and the server's
    -- response to it fit a slot and are deserialized to values other than None and False, and
    -- the server has a round after the client's first poll, which comes before the deadline:
    -- then what the client gets for its command is the response, and the service agrees with
    -- the boxes after both exchanges.
    pub request-served :
        (q : Requester) × (u : Replier) × (s : System) × (ask lib dicts w
            (suc (suc fuel))
            second
            wq
            v
            (c.requester, c.system)
          ≡ (ok (some d), (q, s)))
        × Linked n z i k qm pm
            (record { requester = q; replier = u; system = s })
            (record { requests = exchanged p b.requests; replies = exchanged r b.replies })
    unfolding ask
    request-served = (
      polled.1.0,
      heard_bytes.1.0,
      polled.1.1,
      rw
          (request-received lib w wq (suc (suc fuel)) v (some (3 * second)) c.requester c.system
            sent.1 true d polled.1
            (ap (λ o. (o, sent.1)) (RoundTrip.sent-posted lib l h requests replies w (suc fuel)))
            replied)
          refl,
      (RoundTrip.polled-Linked lib l h requests replies w (suc fuel)).1,
    )
