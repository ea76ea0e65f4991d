-- ===== src/ReqRep/Service/Rounds.antt =====
-- patterns/reqrep.py: boxes that are read up and take one more, and receives whose first poll finds a
-- payload.
use shm_comm.Prelude.{
  ℕ, suc, ◌+◌, ◌<◌, ◌≤◌, ◌≡◌, ap, subst, ◌∙◌, true, false, Option, some, [], ◌∷◌, ◌++◌, length,
  length-append, get_elem?, get_elem?_last, arith, ◌||◌, le→leb, lt→ltb,
}
use shm_comm.Exec.{ok}
use shm_comm.Fifo.{Payload}
use shm_comm.Exec.Spin.{World}
use shm_comm.Core.Segments.{System}
use shm_comm.Serialize.{Library, Method, deserialize}
use shm_comm.Utils.Poll.{poll_until-first}
use shm_comm.Patterns.{decode}
use shm_comm.ReqRep.Replier
use shm_comm.ReqRep.Replier.{Replier}
use shm_comm.ReqRep.Requester
use shm_comm.ReqRep.Requester.{Requester}
use shm_comm.ReqRep.Service.{Service}
use shm_comm.ReqRep.Service.Links.{Linked}
use shm_comm.ReqRep.Service.Requests.{try_recv-found}
use shm_comm.Mailbox.{Mailbox, post, take}

-- A box whose payloads have all been read, and that takes one more.
pub record HasRoom (limit : ℕ) (b : Mailbox) : Type 0 where
  pub all_read : b.read ≡ length b.sent
  pub room : length b.sent < limit

abbrev pub added : Payload → Mailbox → Mailbox
added p b = record b { sent = b.sent ++ p ∷ [] }

abbrev pub exchanged : Payload → Mailbox → Mailbox
exchanged p b = record { sent = b.sent ++ p ∷ []; read = b.read + 1 }

pub post-added :
    (limit longest : ℕ) (p : Payload) (b : Mailbox)
    → HasRoom limit b
    → length p ≤ longest
    → post limit longest p b ≡ (ok true, added p b)
unfolding post
post-added limit longest p b h short = rw (le→leb _ longest short, lt→ltb _ limit h.room)

pub take-added :
    (limit : ℕ) (p : Payload) (b : Mailbox)
    → HasRoom limit b
    → take (added p b) ≡ (some p, exchanged p b)
unfolding take
take-added limit p b h =
    rw
      (lt→ltb b.read (length (b.sent ++ p ∷ []))
        (omega (arith, length-append b.sent (p ∷ []), h.all_read)))
      (ap (λ o. (o, exchanged p b))
        (ap (get_elem? (b.sent ++ p ∷ [])) h.all_read ∙ get_elem?_last b.sent p))

-- The same service, with a box that is equal.
module _ {n z i k : ℕ} {qm pm : Method} {c : Service} {m m' o : Mailbox} (e : m ≡ m') where
  pub requests_as :
      Linked n z i k qm pm c (record { requests = m; replies = o })
      → Linked n z i k qm pm c (record { requests = m'; replies = o })
  requests_as l =
      subst (λ (x : Mailbox). Linked n z i k qm pm c (record { requests = x; replies = o })) e l

  pub replies_as :
      Linked n z i k qm pm c (record { requests = o; replies = m })
      → Linked n z i k qm pm c (record { requests = o; replies = m' })
  replies_as l =
      subst (λ (x : Mailbox). Linked n z i k qm pm c (record { requests = o; replies = x })) e l

module _ (lib : Library) where
  abbrev pub Truthy : lib.Value → Type 0
  Truthy v = (lib.is_none v || lib.is_false v) ≡ false

  -- A payload that the first poll finds is what a receive returns.
  pub replier-recv :
      (w : World (Replier × System)) (fuel : ℕ) (timeout : Option ℕ) (st st' : Replier × System)
      (raw : Payload) (v : lib.Value)
      → Replier.try_recv_bytes st ≡ (ok (some raw), st')
      → deserialize lib raw st.0.serialization ≡ ok v
      → Truthy v
      → Replier.recv lib w (suc fuel) timeout st ≡ (ok (some v), st')
  unfolding Replier.recv Replier.try_recv decode
  replier-recv w fuel timeout st st' raw v e d t =
      poll_until-first (λ u. lib.is_none u || lib.is_false u) (Replier.try_recv lib) w timeout
        (λ _. st) (λ _. st) 0 (suc fuel) v st' (λ i lt. absurd (omega arith)) (omega arith)
        (rw (e, d)) t

  pub requester-recv :
      (w : World (Requester × System)) (fuel : ℕ) (timeout : Option ℕ) (st st' : Requester × System)
      (raw : Payload) (v : lib.Value)
      → Requester.try_recv_bytes st ≡ (ok (some raw), st')
      → deserialize lib raw st.0.serialization ≡ ok v
      → Truthy v
      → Requester.recv lib w (suc fuel) timeout st ≡ (ok (some v), st')
  unfolding Requester.recv
  requester-recv w fuel timeout st st' raw v e d t =
      poll_until-first (λ u. lib.is_none u || lib.is_false u) (Requester.try_recv lib) w timeout
        (λ _. st) (λ _. st) 0 (suc fuel) v st' (λ i lt. absurd (omega arith)) (omega arith)
        (try_recv-found lib st st' raw v e d) t
