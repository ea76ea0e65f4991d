-- ===== src/Mailbox.antt =====
-- What one direction of a request/reply channel comes to: a box that takes `limit` payloads in all,
-- read or not, and hands them to its one reader in order.
use shm_comm.Prelude.{
  ℕ, ◌+◌, Bool, true, false, Option, none, List, [], ◌∷◌, ◌++◌, length, get_elem?, leb, ltb,
  if◌then◌else◌,
}
use shm_comm.Exec.{Outcome, ok, raised, value_error}
use shm_comm.Fifo.{Payload}

pub record Mailbox : Type 0 where
  pub sent : List Payload
  pub read : ℕ

abbrev pub fresh : Mailbox
fresh = record { sent = []; read = 0 }

-- A payload of at most `longest` bytes, while fewer than `limit` were ever taken in.
unfoldable pub post : ℕ → ℕ → Payload → Mailbox → Outcome Bool × Mailbox
post limit longest p b =
    if leb (length p) longest
    then (if ltb (length b.sent) limit
        then (ok true, record b { sent = b.sent ++ p ∷ [] })
        else (ok false, b))
    else (raised value_error, b)

unfoldable pub take : Mailbox → Option Payload × Mailbox
take b =
    if ltb b.read (length b.sent)
    then (get_elem? b.sent b.read, record b { read = b.read + 1 })
    else (none, b)
