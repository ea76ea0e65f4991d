-- ===== src/Buffer/Subscription.antt =====
-- A private cursor over the ring of buffer.py (`read_message_spsc`), against `Feed`.
use shm_comm.Prelude.{
  ℕ, suc, ◌+◌, ◌-◌, ◌%◌, ◌≤◌, ◌<◌, ◌≡◌, sym, ap, ◌∙◌, ◌≢◌, Option, none, some, [], ◌∷◌, length,
  length-append, get_elem?, arith, ne→==, eq→==, ℕ_discrete,
}
use shm_comm.Prelude.Remainder.{mod-below, mod-once, succ_mod, mod_self_sub}
use shm_comm.Exec.{ok}
use shm_comm.Memory.{Memory}
use shm_comm.Core.Header.{idx_head, get_field}
use shm_comm.Ring.Cursor.{
  back, back-zero, back-lt, back-succ, succ-back, ahead, ahead-back, back-round,
}
use shm_comm.Ring.Distance.{ahead_self}
use shm_comm.Fifo.{Payload}
use shm_comm.Feed.{Feed, publish, pending, receive}
use shm_comm.Buffer.{read_message_spsc}
use shm_comm.Buffer.Slots.{payload_at}
use shm_comm.Buffer.Segment.{IsSegment, committed, head-committed, committed-IsSegment}
use shm_comm.Buffer.Read.{read_message_spsc-empty, read_message_spsc-some}
use shm_comm.Buffer.History.{Keeps, Keeps-committed, Keeps-payload_at}

-- The segment, the cursor and the abstract feed agree.
pub record Tracks (n z : ℕ) (m : Memory) (c : ℕ) (f : Feed Payload) : Type 0 where
  pub segment : IsSegment n z m
  pub keeps : Keeps n z m f.sent
  pub due : f.place ≤ length f.sent
  pub cursor : c ≡ back n (get_field idx_head m) (pending n f)

-- What `read_message_spsc` returns for a received payload and the cursor after it.
abbrev pub with_cursor : Option Payload → ℕ → Option (Payload × ℕ)
with_cursor none c = none
with_cursor (some p) c = some (p, c)

-- Where the subscriber's own cursor stands after a read.
abbrev pub next_cursor : Option (Payload × ℕ) → ℕ → ℕ
next_cursor none c = c
next_cursor (some r) c = r.1

module _ {n z : ℕ} {m : Memory} {c : ℕ} {f : Feed Payload} (t : Tracks n z m c f) where
  open t use {segment, keeps, due, cursor}
  open segment use {some_slot, head_in}

  abbrev head : ℕ
  head = get_field idx_head m

  pub pending-lt : pending n f < n
  unfolding pending
  pending-lt = omega arith

  pub pending-le : pending n f ≤ length f.sent
  unfolding pending
  pending-le = omega arith

  pub pending-publish : (p : Payload) → pending n (publish p f) ≡ (pending n f + 1) % n
  unfolding pending publish
  pending-publish p =
      ap (λ (k : ℕ). k % n) (omega (arith, length-append f.sent (p ∷ [])))
      ∙ succ_mod (length f.sent - f.place) n

  cursor-publish : c ≡ back n ((head + 1) % n) ((pending n f + 1) % n)
  cursor-publish = elim (ℕ_discrete (suc (pending n f)) n) [
    | no inner ↦
        cursor
        ∙ sym (back-succ n head (pending n f) head_in pending-lt)
        ∙ ap (back n ((head + 1) % n))
            (omega (arith, mod-below (pending n f + 1) n (omega (arith, pending-lt))))
    | yes wrap ↦
        cursor
        ∙ sym (back-succ n head (pending n f) head_in pending-lt)
        ∙ ap (back n ((head + 1) % n)) wrap
        ∙ back-round n ((head + 1) % n) (omega arith)
        ∙ sym (back-zero n ((head + 1) % n) (omega arith))
        ∙ ap (back n ((head + 1) % n))
            (omega (arith, mod-once (pending n f + 1) n (omega arith) (omega arith)))
  ]

  -- Each publication is one of the feed's.
  pub Tracks-publish :
      (p : Payload) → length p + 4 ≤ z → Tracks n z (committed n z p m) c (publish p f)
  unfolding publish
  Tracks-publish p room = record {
    segment = committed-IsSegment segment p room;
    keeps = Keeps-committed segment p room f.sent keeps;
    due = omega (arith, length-append f.sent (p ∷ []));
    cursor = rw (head-committed segment p room, pending-publish p) cursor-publish;
  }

  -- Nothing is pending.
  module _ (e : pending n f ≡ 0) where
    pub cursor-eq_head : c ≡ head
    cursor-eq_head = cursor ∙ ap (back n head) e ∙ back-zero n head head_in

    pub receive-none : receive n f ≡ (none, record f { place = length f.sent })
    unfolding receive
    receive-none = rw (eq→== (pending n f) 0 e)

    pub Tracks-none : Tracks n z m c (record f { place = length f.sent })
    unfolding pending
    Tracks-none = record {
      segment = segment;
      keeps = keeps;
      due = omega arith;
      cursor =
          cursor-eq_head
          ∙ sym (back-zero n head head_in)
          ∙ ap (back n head) (sym (mod_self_sub (length f.sent) n some_slot));
    }

  -- `d + 1` publications are pending.
  module _ (d : ℕ) (e : pending n f ≡ suc d) where
    at_cursor : c ≡ back n head (suc d)
    at_cursor = cursor ∙ ap (back n head) e

    pub cursor-ne_head : c ≢ head
    cursor-ne_head same = absurd (
        omega (
          arith,
          ap (ahead n head) (sym at_cursor ∙ same),
          ahead-back n head (suc d) head_in (omega (arith, pending-lt)),
          ahead_self n head head_in,
        ))

    pub cursor-lt : c < n
    cursor-lt = rw at_cursor (back-lt n head (suc d) head_in)

    pub found : some (payload_at z m c) ≡ get_elem? f.sent (length f.sent - suc d)
    found =
        ap (λ b. some (payload_at z m b)) at_cursor
        ∙ Keeps-payload_at d keeps (omega (arith, pending-lt)) (omega (arith, pending-le))

    pub receive-some :
        receive n f ≡ (some (payload_at z m c), record f { place = length f.sent - suc d + 1 })
    unfolding receive
    receive-some = rw (ne→== (pending n f) 0 (omega arith), e, found)

    pub Tracks-some : Tracks n z m ((c + 1) % n) (record f { place = length f.sent - suc d + 1 })
    unfolding pending
    Tracks-some = record {
      segment = segment;
      keeps = keeps;
      due = omega (arith, pending-le);
      cursor =
          ap (λ (b : ℕ). (b + 1) % n) at_cursor
          ∙ succ-back n head d head_in (omega (arith, pending-lt))
          ∙ ap (back n head) (
              sym (
                ap (λ (k : ℕ). k % n) (omega (arith, pending-le))
                ∙ mod-below d n (omega (arith, pending-lt))));
    }

  -- When a well-formed segment and a private cursor agree with a feed, one read by that cursor
  -- answers as one receive of the feed, leaves the segment as it is, and the new cursor agrees
  -- with the feed after the receive.
  pub read_message_spsc-receive :
      (read_message_spsc c m ≡ (ok (with_cursor (receive n f).0 ((c + 1) % n)), m))
      × Tracks n z m (next_cursor (with_cursor (receive n f).0 ((c + 1) % n)) c) (receive n f).1
  read_message_spsc-receive = elim (ℕ_discrete (pending n f) 0) [
    | yes e ↦
        rw (receive-none e) (rw (cursor-eq_head e) (read_message_spsc-empty segment), Tracks-none e)
    | no ne ↦
        let e : pending n f ≡ suc (pending n f - 1) = omega arith in
        rw (receive-some (pending n f - 1) e) (
          read_message_spsc-some segment c (cursor-lt (pending n f - 1) e)
              (cursor-ne_head (pending n f - 1) e),
          Tracks-some (pending n f - 1) e,
        )
  ]
