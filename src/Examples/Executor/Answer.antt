-- ===== src/Examples/Executor/Answer.antt =====
-- examples/command_executor.py against a requester: a command that is sent is executed and answered.
use shm_comm.Prelude.{
  ℕ, suc, ◌-◌, ◌≡◌, ap, ◌∙◌, Bool, true, false, Option, some, List, [], ◌∷◌, ◌++◌,
}
use shm_comm.Exec.{Outcome, ok}
use shm_comm.Fifo.{Payload}
use shm_comm.Exec.Spin.{World}
use shm_comm.Memory.{Memory}
use shm_comm.Names.{codes}
use shm_comm.Core.Segments.{System}
use shm_comm.Serialize.{Library, Method, deserialize}
use shm_comm.ReqRep.Replier.{Replier}
use shm_comm.ReqRep.Requester
use shm_comm.ReqRep.Requester.{Requester}
use shm_comm.ReqRep.Service.{Service, Boxes}
use shm_comm.ReqRep.Service.Links.{Linked}
use shm_comm.ReqRep.Service.RoundTrip
use shm_comm.ReqRep.Service.RoundTrip.{Exchange}
use shm_comm.Examples.Executor.{Strings, Executor, is_estop, listen, work, execute}
use shm_comm.ReqRep.Service.Rounds.{HasRoom, exchanged, replier-recv, requester-recv}

module _ (lib : Library) where
  -- Both loops run, and the queue is empty.
  abbrev pub idle : Replier → System → List lib.Value → List lib.Value → Executor lib
  idle replier system received executed = record {
    replier = replier;
    system = system;
    command_queue = [];
    stop_event = false;
    listening = true;
    looping = true;
    received = received;
    executed = executed;
  }

module _ (lib : Library) (strings : Strings lib) {n z i k : ℕ} {qm pm : Method} {c : Service}
    {b : Boxes} (l : Linked n z i k qm pm c b) {v v' d : lib.Value} {p r : Payload}
    (h : Exchange lib z qm pm v v' (strings.string (codes "done")) d p r)
    (ordinary : is_estop lib strings v' ≡ false) (requests : HasRoom (n - 1) b.requests)
    (replies : HasRoom (n - 1) b.replies) (w : World Memory) (fuel : ℕ) where
  abbrev sent : Outcome Bool × System
  sent = RoundTrip.sent lib l h requests replies w fuel

  abbrev heard_bytes : Outcome (Option Payload) × (Replier × System)
  heard_bytes = RoundTrip.heard_bytes lib l h requests replies w fuel

  abbrev confirmed : Outcome Bool × System
  confirmed = RoundTrip.confirmed lib l h requests replies w fuel

  abbrev polled : Outcome (Option Payload) × (Requester × System)
  polled = RoundTrip.polled lib l h requests replies w fuel

  module _ (w' : World (Replier × System)) (half_second : ℕ)
      (received executed : List lib.Value) where
    -- The executor after the round of its listener.
    abbrev informed : Executor lib
    informed = record (idle lib heard_bytes.1.0 heard_bytes.1.1 (received ++ v' ∷ []) executed) {
      command_queue = v' ∷ [];
    }

    listen-informed :
        listen lib w' (suc fuel) half_second (idle lib c.replier sent.1 received executed)
        ≡ informed
    unfolding listen
    listen-informed = rw (
        replier-recv lib w' fuel (some half_second) (c.replier, sent.1) heard_bytes.1 p v'
          (RoundTrip.heard-Linked lib l h requests replies w fuel).0
          (ap (deserialize lib p) l.replies_by ∙ h.command_read) h.command_truthy)

    work-informed :
        work lib strings w (suc fuel) informed
        ≡ idle lib heard_bytes.1.0 confirmed.1 (received ++ v' ∷ []) (executed ++ v' ∷ [])
    unfolding work execute
    work-informed = rw ordinary

    -- When requester and replier are open on two segments that agree with two boxes, all of
    -- whose payloads have been read and which take one more, the executor's two loops run
    -- with an empty queue, the command and the confirmation fit a slot and are deserialized
    -- to values other than None and False, and the command is no ESTOP: after the requester's
    -- send, a round of the listener and a round of the main loop, the command has been
    -- received and executed, the queue is empty again, the requester's receive returns the
    -- confirmation, and the service agrees with the boxes after both exchanges.
    pub command-answered :
        (w'' : World (Requester × System)) (timeout : Option ℕ)
        → (replier : Replier) × (s : System) × (q : Requester) × (s' : System) × (work lib strings w
              (suc fuel)
              (listen lib w' (suc fuel) half_second (idle lib c.replier sent.1 received executed))
            ≡ idle lib replier s (received ++ v' ∷ []) (executed ++ v' ∷ []))
          × (Requester.recv lib w'' (suc fuel) timeout (c.requester, s) ≡ (ok (some d), (q, s')))
          × Linked n z i k qm pm
              (record { requester = q; replier = replier; system = s' })
              (record { requests = exchanged p b.requests; replies = exchanged r b.replies })
    command-answered w'' timeout = (
      heard_bytes.1.0,
      confirmed.1,
      polled.1.0,
      polled.1.1,
      ap (work lib strings w (suc fuel)) listen-informed ∙ work-informed,
      requester-recv lib w'' fuel timeout (c.requester, confirmed.1) polled.1 r d
          (RoundTrip.polled-Linked lib l h requests replies w fuel).0
          (ap (deserialize lib r) l.requests_by ∙ h.reply_read) h.reply_truthy,
      (RoundTrip.polled-Linked lib l h requests replies w fuel).1,
    )
