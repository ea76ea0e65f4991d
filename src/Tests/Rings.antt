-- ===== src/Tests/Rings.antt =====
-- Theorems on the ring of slots, at three slots of sixteen bytes.
use shm_comm.Prelude.{◌+◌, ◌≡◌, [], ◌∷◌, length, arith}
use shm_comm.Prelude.Int.{as_int64}
use shm_comm.Exec.{ok}
use shm_comm.Memory.{encode_le, decode_le}
use shm_comm.Memory.Words.{decode_le-encode_le}
use shm_comm.Core.Header.{idx_head, idx_msg_count, idx_drop_count, get_field}
use shm_comm.Fifo
use shm_comm.Fifo.{Payload, push, pull}
use shm_comm.Buffer.{Stats, get_stats}
use shm_comm.Buffer.Queue.{contents}
use shm_comm.Buffer.Refine
use shm_comm.Buffer.Refine.{run_refines, write_message-push_payload}
use shm_comm.Buffer.Burst.{publish_all, drain, drain-publish_all}
use shm_comm.Buffer.Statistics.{get_stats-lem}
use shm_comm.Tests.{ring, ring-IsSegment, alone}

-- Two payloads are taken in, a third finds the ring full, a fourth is too long for a slot.
run_refines_example :
    Refine.run alone 1
      (push (7 ∷ [])
        ∷ push (8 ∷ 9 ∷ [])
        ∷ push []
        ∷ pull
        ∷ push (0 ∷ 0 ∷ 0 ∷ 0 ∷ 0 ∷ 0 ∷ 0 ∷ 0 ∷ 0 ∷ 0 ∷ 0 ∷ 0 ∷ 0 ∷ [])
        ∷ [])
      ring
    ≡ Fifo.run 2 12
        (push (7 ∷ [])
          ∷ push (8 ∷ 9 ∷ [])
          ∷ push []
          ∷ pull
          ∷ push (0 ∷ 0 ∷ 0 ∷ 0 ∷ 0 ∷ 0 ∷ 0 ∷ 0 ∷ 0 ∷ 0 ∷ 0 ∷ 0 ∷ 0 ∷ [])
          ∷ [])
        (contents 3 16 ring)
run_refines_example =
    run_refines alone 0
      (push (7 ∷ [])
        ∷ push (8 ∷ 9 ∷ [])
        ∷ push []
        ∷ pull
        ∷ push (0 ∷ 0 ∷ 0 ∷ 0 ∷ 0 ∷ 0 ∷ 0 ∷ 0 ∷ 0 ∷ 0 ∷ 0 ∷ 0 ∷ 0 ∷ [])
        ∷ [])
      ring-IsSegment

-- Five publications on three slots: the last two are received.
drain-publish_all_example :
    drain 3
      (get_field idx_head ring)
      (publish_all alone 1 ((1 ∷ []) ∷ (2 ∷ []) ∷ (3 ∷ []) ∷ (4 ∷ []) ∷ (5 ∷ []) ∷ []) ring)
    ≡ (4 ∷ []) ∷ (5 ∷ []) ∷ []
drain-publish_all_example =
    drain-publish_all alone 1 ((1 ∷ []) ∷ (2 ∷ []) ∷ (3 ∷ []) ∷ (4 ∷ []) ∷ (5 ∷ []) ∷ [])
      ring-IsSegment (omega arith, (omega arith, (omega arith, (omega arith, (omega arith, tt)))))

get_stats-lem_example :
    (r : Stats) × (get_stats ring ≡ (ok r, ring))
    × (r.used_slots ≡ length (contents 3 16 ring))
    × (r.used_slots + r.free_slots ≡ 2)
    × (r.num_slots ≡ 3)
    × (r.slot_size ≡ 16)
    × (r.msg_count ≡ as_int64 (get_field idx_msg_count ring))
    × (r.drop_count ≡ as_int64 (get_field idx_drop_count ring))
get_stats-lem_example = get_stats-lem ring-IsSegment

decode_le-encode_le_example : decode_le (encode_le 4 4096) ≡ 4096
decode_le-encode_le_example = decode_le-encode_le 4 4096 (omega arith)
