-- ===== src/Buffer/Burst.antt =====
-- A burst of publications, and then a subscriber that reads until the ring is empty.
use shm_comm.Prelude.{
  ℕ, zero, suc, ◌+◌, ◌-◌, ◌%◌, ◌≤◌, ◌<◌, ◌≡◌, sym, ap, ◌∙◌, true, false, Option, none, some, List,
  [], ◌∷◌, ◌++◌, length, drop, drop_all, drop-get_elem?, last, arith, append_assoc, append-nil,
}
use shm_comm.Prelude.Remainder.{mod-below}
use shm_comm.Exec.{Outcome, ok}
use shm_comm.Exec.Spin.{World}
use shm_comm.Memory.{Memory}
use shm_comm.Core.Header.{idx_head, get_field}
use shm_comm.Ring.Cursor.{back, back-zero}
use shm_comm.Fifo.{Payload}
use shm_comm.Feed.{Feed, publish, pending}
use shm_comm.Buffer.{write_message, read_message_spsc}
use shm_comm.Buffer.Slots.{payload_at}
use shm_comm.Buffer.Segment.{IsSegment}
use shm_comm.Buffer.Write.{write_message-overwrite}
use shm_comm.Buffer.Read.{read_message_spsc-empty, read_message_spsc-some}
use shm_comm.Buffer.History.{Keeps-nil}
use shm_comm.Buffer.Subscription.{
  Tracks, Tracks-publish, Tracks-some, cursor-eq_head, cursor-ne_head, cursor-lt, found, pending-lt,
  pending-le,
}

-- The publications in order, each overwriting the oldest slot.
unfoldable pub publish_all : World Memory → ℕ → List Payload → Memory → Memory
publish_all w fuel [] m = m
publish_all w fuel (p ∷ ps) m = publish_all w fuel ps (write_message w fuel p false none true m).1

abbrev pub after_read : Outcome (Option (Payload × ℕ)) → (ℕ → List Payload) → List Payload
after_read (ok (some (p, c))) rest = p ∷ rest c
after_read _ rest = []

-- Reads by a private cursor until there is nothing, at most `fuel` of them.
unfoldable pub drain : ℕ → ℕ → Memory → List Payload
drain zero c m = []
drain (suc fuel) c m =
    after_read (read_message_spsc c m).0 (λ c'. drain fuel c' (read_message_spsc c m).1)

-- Every payload fits a slot of `z` bytes.
abbrev pub AllFit : ℕ → List Payload → Type 0
AllFit z [] = Unit
AllFit z (p ∷ ps) = (length p + 4 ≤ z) × AllFit z ps

pending_of :
    (n : ℕ) (f : Feed Payload) (d : ℕ) → length f.sent - f.place ≡ d → d < n → pending n f ≡ d
unfolding pending
pending_of n f d e lt = ap (λ (k : ℕ). k % n) e ∙ mod-below d n lt

pending-some :
    {n z : ℕ} {m : Memory} {c : ℕ} {f : Feed Payload} (t : Tracks n z m c f) (d : ℕ)
    → pending n f ≡ suc d
    → pending n (record f { place = length f.sent - suc d + 1 }) ≡ d
pending-some {n} {f = f} t d e =
    pending_of n _ d (omega (arith, pending-le t)) (omega (arith, pending-lt t))

drain-last :
    {n z : ℕ} {m : Memory} (fuel d : ℕ) {c : ℕ} {f : Feed Payload}
    → Tracks n z m c f
    → pending n f ≡ d
    → d ≤ fuel
    → drain fuel c m ≡ last d f.sent
unfolding drain
drain-last zero zero {f = f} t e le = sym (drop_all f.sent _ (omega arith))
drain-last zero (suc d) t e le = absurd (omega arith)
drain-last (suc fuel) zero {f = f} t e le =
    rw (cursor-eq_head t e, read_message_spsc-empty t.segment)
      (sym (drop_all f.sent _ (omega arith)))
drain-last {n} {z} {m} (suc fuel) (suc d) {c} {f} t e le =
    let left : suc (length f.sent - suc d) ≡ length f.sent - d = omega (arith, pending-le t) in
    rw (read_message_spsc-some t.segment c (cursor-lt t d e) (cursor-ne_head t d e)) (
      ap (λ (q : List Payload). payload_at z m c ∷ q)
        (drain-last fuel d (Tracks-some t d e) (pending-some t d e) (omega arith))
      ∙ sym (
          drop-get_elem? (length f.sent - suc d) f.sent _ (found t d e)
          ∙ ap (λ (k : ℕ). payload_at z m c ∷ drop k f.sent) left))

pub publish_all-Tracks :
    {n z : ℕ} (w : World Memory) (fuel : ℕ) (ps : List Payload) {m : Memory} {c : ℕ}
    {f : Feed Payload}
    → Tracks n z m c f
    → AllFit z ps
    → Tracks n z (publish_all w fuel ps m) c (record f { sent = f.sent ++ ps })
unfolding publish_all publish
publish_all-Tracks w fuel [] {f = f} t fit = rw (append-nil f.sent) t
publish_all-Tracks {n} {z} w fuel (p ∷ ps) {m} {c} {f} t (room, fit) =
    rw
      (
        write_message-overwrite t.segment w fuel p false none room,
        ← append_assoc f.sent (p ∷ []) ps,
      )
      (publish_all-Tracks w fuel ps (Tracks-publish t p room) fit)

-- On a well-formed segment of n slots, a reader whose cursor is at the head, and who reads only
-- after a list of payloads that fit the slots was published over it, receives the last k % n of
-- them in order and then nothing, where k is their number: all of them if there are fewer than n,
-- and none if k is a multiple of n.
pub drain-publish_all :
    {n z : ℕ} {m : Memory} (w : World Memory) (fuel : ℕ) (ps : List Payload)
    → IsSegment n z m
    → AllFit z ps
    → drain n (get_field idx_head m) (publish_all w fuel ps m) ≡ last (length ps % n) ps
unfolding pending
drain-publish_all {n} {z} {m} w fuel ps s fit =
    drain-last n (length ps % n) (publish_all-Tracks w fuel ps start fit)
      (ap (λ (k : ℕ). k % n) (omega arith)) (omega (arith, s.some_slot))
  where
    start : Tracks n z m (get_field idx_head m) (record { sent = []; place = 0 })
    start = record {
      segment = s;
      keeps = Keeps-nil n z m;
      due = omega arith;
      cursor =
          sym (back-zero n (get_field idx_head m) s.head_in)
          ∙ ap (back n (get_field idx_head m)) (sym (mod-below 0 n s.some_slot));
    }
