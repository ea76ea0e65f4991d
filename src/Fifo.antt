-- ===== src/Fifo.antt =====
-- What a push/pull channel promises: a queue of payloads, oldest first, which refuses a push when it
-- holds its limit, and raises for a payload that is too long.
use shm_comm.Prelude.{
  ℕ, Bool, true, false, Option, none, some, List, [], ◌∷◌, ◌++◌, length, leb, ltb, if◌then◌else◌,
}
use shm_comm.Exec.{Outcome, ok, raised, value_error}

abbrev pub Payload : Type 0
Payload = List ℕ

-- One call on the channel by the pusher or by some puller.
pub data Call : Type 0 where
  push : Payload → Call
  pull : Call

pub data Answer : Type 0 where
  pushed : Outcome Bool → Answer
  pulled : Outcome (Option Payload) → Answer

-- `limit` payloads at most, each of at most `longest` bytes.
module _ (limit longest : ℕ) where
  unfoldable pub push_payload : Payload → List Payload → Outcome Bool × List Payload
  push_payload p q =
      if leb (length p) longest
      then (if ltb (length q) limit then (ok true, q ++ p ∷ []) else (ok false, q))
      else (raised value_error, q)

unfoldable pub pull_payload : List Payload → Option Payload × List Payload
pull_payload [] = (none, [])
pull_payload (p ∷ q) = (some p, q)

unfoldable pub run : ℕ → ℕ → List Call → List Payload → List Answer
run limit longest [] q = []
run limit longest (push p ∷ calls) q =
    pushed (push_payload limit longest p q).0
    ∷ run limit longest calls (push_payload limit longest p q).1
run limit longest (pull ∷ calls) q =
    pulled (ok (pull_payload q).0) ∷ run limit longest calls (pull_payload q).1
