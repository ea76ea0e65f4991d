-- ===== src/Tests/Commands.antt =====
-- The theorem on examples/reqrep_example.py, at one small service.
use shm_comm.Prelude.{◌≡◌, refl, some, arith}
use shm_comm.Exec.{ok}
use shm_comm.Exec.Spin.{World}
use shm_comm.Names.{codes, same}
use shm_comm.Core.Segments.{System}
use shm_comm.Mailbox
use shm_comm.Serialize.{pickle, serialize, deserialize}
use shm_comm.ReqRep.Replier.{Replier}
use shm_comm.ReqRep.Requester.{Requester}
use shm_comm.ReqRep.Service.Links.{Linked}
use shm_comm.ReqRep.Service.Rounds.{HasRoom, exchanged}
use shm_comm.ReqRep.Service.RoundTrip.{Exchange}
use shm_comm.Examples.Arm.{Dicts, respond, serve_round, ask}
use shm_comm.Examples.Arm.Served.{request-served}
use shm_comm.Tests.{alone, library, service, empty_boxes, service-Linked}

-- Every value is a dictionary whose entries are the value itself.
abbrev dicts : Dicts library
dicts = record {
  get = λ v key. ok (some v);
  equals = same;
  string = λ s. s;
  zero_joint = codes "0";
  zero_angle = codes "0";
  status = codes "up";
  moved = λ joint angle. joint;
  stopped = codes "halt";
  unknown_command = λ cmd. codes "unknown";
}

stop-Exchange :
    Exchange library 16 pickle pickle
      (codes "stop")
      (codes "stop")
      (codes "halt")
      (codes "halt")
      (codes "stop")
      (codes "halt")
unfolding serialize deserialize
stop-Exchange = record {
  command_bytes = refl;
  command_fits = omega arith;
  command_read = refl;
  command_truthy = refl;
  reply_bytes = refl;
  reply_fits = omega arith;
  reply_read = refl;
  reply_truthy = refl;
}

stopped_by :
    (st : Replier × System) → respond library dicts (codes "stop") st ≡ (ok (codes "halt"), st)
unfolding respond same
stopped_by st = refl

empty-HasRoom : HasRoom 2 Mailbox.fresh
empty-HasRoom = record { all_read = refl; room = omega arith }

-- The server has a round while the client waits.
abbrev server : World (Requester × System)
server = record {
  started = 0;
  clock = λ round. round;
  others = λ j st. (st.0, (serve_round library dicts alone alone 2 1 (service.replier, st.1)).1.1);
}

request-served_example :
    (q : Requester) × (u : Replier) × (s : System) × (ask library dicts alone 2 1 server
        (codes "stop")
        (service.requester, service.system)
      ≡ (ok (some (codes "halt")), (q, s)))
    × Linked 3 16 0 1 pickle pickle
        (record { requester = q; replier = u; system = s })
        (record {
          requests = exchanged (codes "stop") empty_boxes.requests;
          replies = exchanged (codes "halt") empty_boxes.replies;
        })
request-served_example =
    request-served library dicts service-Linked stop-Exchange stopped_by empty-HasRoom empty-HasRoom
      alone alone 0 1 server (λ s. refl) (omega arith)
