-- ===== src/Buffer/Exchange.antt =====
-- buffer.py with one writer that respects the shared tail and one reader with a private cursor, as the
-- request/reply pattern uses it, against `Mailbox`.
use shm_comm.Prelude.{
  ℕ, suc, ◌+◌, ◌-◌, ◌%◌, ◌≤◌, ◌<◌, ◌≡◌, refl, sym, ap, ◌∙◌, false, Option, some, [], ◌∷◌, ◌++◌,
  length, length-append, get_elem?, arith, le→leb, lt→leb, lt→ltb, le→ltb, dec_le, dec_lt,
}
use shm_comm.Prelude.Remainder.{mod-below}
use shm_comm.Exec.{ok}
use shm_comm.Exec.Spin.{World}
use shm_comm.Memory.{Memory}
use shm_comm.Core.Header.{idx_head, idx_tail, idx_drop_count, get_field}
use shm_comm.Core.Fields.{get_field-set_field_ne}
use shm_comm.Ring.Cursor.{back, back-of_le, succ-of_eq}
use shm_comm.Fifo.{Payload}
use shm_comm.Mailbox
use shm_comm.Mailbox.{Mailbox}
use shm_comm.Buffer.{write_message, read_message_spsc}
use shm_comm.Buffer.Slots.{payload_at}
use shm_comm.Buffer.Segment.{
  IsSegment, committed, head-committed, get_field-committed, committed-IsSegment,
}
use shm_comm.Buffer.Fields.{dropped, dropped-IsSegment}
use shm_comm.Buffer.Write.{write_message-too_large, write_message-free, write_message-full}
use shm_comm.Buffer.Read.{read_message_spsc-empty, read_message_spsc-some}
use shm_comm.Buffer.Subscription.{with_cursor, next_cursor}
use shm_comm.Buffer.History.{Keeps, Keeps-committed, Keeps-payload_at, Keeps-dropped}

-- The segment, the reader's cursor and the abstract box agree. The shared tail is still at 0, so the
-- head counts all that was ever sent.
pub record Posted (n z : ℕ) (m : Memory) (c : ℕ) (b : Mailbox) : Type 0 where
  pub segment : IsSegment n z m
  pub keeps : Keeps n z m b.sent
  pub tail : get_field idx_tail m ≡ 0
  pub head : get_field idx_head m ≡ length b.sent
  pub read : b.read ≤ length b.sent
  pub cursor : c ≡ b.read

module _ {n z : ℕ} {m : Memory} {c : ℕ} {b : Mailbox} (t : Posted n z m c b) where
  open t use {segment, keeps, tail, head, read, cursor}
  open segment use {some_slot, prefix, head_in}

  next_head : suc (length b.sent) < n → (get_field idx_head m + 1) % n ≡ length b.sent + 1
  next_head lt = ap (λ (h : ℕ). (h + 1) % n) head ∙ mod-below (length b.sent + 1) n (omega arith)

  is_full : suc (length b.sent) ≡ n → (get_field idx_head m + 1) % n ≡ get_field idx_tail m
  is_full e = succ-of_eq n (get_field idx_head m) head_in (omega arith) ∙ sym tail

  Posted-committed :
      (p : Payload)
      → length p + 4 ≤ z
      → suc (length b.sent) < n
      → Posted n z (committed n z p m) c (record b { sent = b.sent ++ p ∷ [] })
  Posted-committed p room lt = record {
    segment = committed-IsSegment segment p room;
    keeps = Keeps-committed segment p room b.sent keeps;
    tail =
        get_field-committed segment p room idx_tail (omega arith) (omega arith) (omega arith)
        ∙ tail;
    head =
        head-committed segment p room ∙ next_head lt ∙ omega (arith, length-append b.sent (p ∷ []));
    read = omega (arith, length-append b.sent (p ∷ []));
    cursor = cursor;
  }

  Posted-dropped : Posted n z (dropped m) c b
  unfolding dropped
  Posted-dropped = record {
    segment = dropped-IsSegment segment;
    keeps = Keeps-dropped head_in keeps;
    tail = get_field-set_field_ne idx_drop_count idx_tail _ m (omega arith) ∙ tail;
    head = get_field-set_field_ne idx_drop_count idx_head _ m (omega arith) ∙ head;
    read = read;
    cursor = cursor;
  }

  -- Each write is one `post`.
  pub write_message-post :
      (w : World Memory) (fuel : ℕ) (p : Payload) (o : Option ℕ)
      → ((write_message w (suc fuel) p false o false m).0 ≡ (Mailbox.post (n - 1) (z - 4) p b).0)
        × Posted n z
            (write_message w (suc fuel) p false o false m).1
            c
            (Mailbox.post (n - 1) (z - 4) p b).1
  unfolding Mailbox.post
  write_message-post w fuel p o = elim (dec_le (length p + 4) z) [
    | no big ↦
        rw
          (
            lt→leb (length p) (z - 4) (omega arith),
            write_message-too_large segment w (suc fuel) p false o false (omega arith),
          )
          (refl, t)
    | yes room ↦ elim (dec_lt (suc (length b.sent)) n) [
      | yes lt ↦
          rw
            (
              le→leb (length p) (z - 4) (omega arith),
              lt→ltb (length b.sent) (n - 1) (omega arith),
              write_message-free segment w fuel p false o room
                  (λ e. absurd (omega (arith, next_head lt))),
            )
            (refl, Posted-committed p room lt)
      | no ge ↦
          rw
            (
              le→leb (length p) (z - 4) (omega arith),
              le→ltb (length b.sent) (n - 1) (omega arith),
              write_message-full segment w fuel p false o room (is_full (omega arith)),
            )
            (refl, Posted-dropped)
    ]
  ]

  module _ (lt : b.read < length b.sent) where
    at_read : back n (get_field idx_head m) (suc (length b.sent - suc b.read)) ≡ c
    at_read =
        omega
          (arith, back-of_le n (get_field idx_head m) head_in (suc (length b.sent - suc b.read)))

    pub payload_at-read : some (payload_at z m c) ≡ get_elem? b.sent b.read
    payload_at-read =
        ap (λ i. some (payload_at z m i)) (sym at_read)
        ∙ Keeps-payload_at (length b.sent - suc b.read) keeps (omega arith) (omega arith)
        ∙ ap (get_elem? b.sent) (omega arith)

    pub Posted-read : Posted n z m ((c + 1) % n) (record b { read = b.read + 1 })
    Posted-read = record {
      segment = segment;
      keeps = keeps;
      tail = tail;
      head = head;
      read = omega arith;
      cursor = omega (arith, mod-below (c + 1) n (omega arith));
    }

  -- Each read is one `take`, and leaves the segment as it is.
  pub read_message_spsc-take :
      (read_message_spsc c m ≡ (ok (with_cursor (Mailbox.take b).0 ((c + 1) % n)), m))
      × Posted n z m
          (next_cursor (with_cursor (Mailbox.take b).0 ((c + 1) % n)) c)
          (Mailbox.take b).1
  unfolding Mailbox.take
  read_message_spsc-take = elim (dec_lt b.read (length b.sent)) [
    | yes lt ↦
        rw (lt→ltb b.read (length b.sent) lt, ← payload_at-read lt)
          (read_message_spsc-some segment c (omega arith) (omega arith), Posted-read lt)
    | no ge ↦
        let e : c ≡ get_field idx_head m = omega arith in
        rw (le→ltb b.read (length b.sent) (omega arith)) (rw e (read_message_spsc-empty segment), t)
  ]
