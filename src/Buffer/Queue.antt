-- ===== src/Buffer/Queue.antt =====
-- The ring between the shared tail and the head of buffer.py, read as a queue.
use shm_comm.Prelude.{
  ℕ, ◌+◌, ◌-◌, ◌%◌, ◌≤◌, ◌≡◌, sym, ap, ◌∙◌, ◌≢◌, true, false, List, [], ◌∷◌, ◌++◌, length, arith,
  ltb, lt→ltb, le→ltb,
}
use shm_comm.Memory.{Memory}
use shm_comm.Core.Header.{idx_head, idx_tail, idx_drop_count, get_field}
use shm_comm.Core.Fields.{get_field-set_field_ne}
use shm_comm.Ring.{window, length-window, window_snoc, window_ext}
use shm_comm.Ring.Cursor.{ahead, ahead-lt}
use shm_comm.Ring.Distance.{ahead-add, ahead-advance, ahead-full, ahead-claim, ahead_self}
use shm_comm.Fifo.{Payload}
use shm_comm.Buffer.Slots.{payload_at, payload_at-set_field}
use shm_comm.Buffer.Segment.{
  IsSegment, committed, head-committed, get_field-committed, payload_at-committed_self,
  payload_at-committed_ne,
}
use shm_comm.Buffer.Fields.{dropped, claimed, tail-claimed}

abbrev pub head_of : Memory → ℕ
head_of m = get_field idx_head m

abbrev pub tail_of : Memory → ℕ
tail_of m = get_field idx_tail m

-- The payloads from the shared tail up to the head.
unfoldable pub contents : ℕ → ℕ → Memory → List Payload
contents n z m = window (payload_at z m) n (tail_of m) (ahead n (head_of m) (tail_of m))

pub length-contents :
    (n z : ℕ) (m : Memory) → length (contents n z m) ≡ ahead n (head_of m) (tail_of m)
unfolding contents
length-contents n z m =
    length-window (payload_at z m) n (tail_of m) (ahead n (head_of m) (tail_of m))

head-claimed : (m : Memory) (n : ℕ) → head_of (claimed n m) ≡ head_of m
unfolding claimed
head-claimed m n = get_field-set_field_ne idx_tail idx_head _ m (omega arith)

payload_at-claimed :
    (z n : ℕ) (m : Memory) (j : ℕ) → payload_at z (claimed n m) j ≡ payload_at z m j
unfolding claimed
payload_at-claimed z n m j = payload_at-set_field z idx_tail _ m j (omega arith)

module _ {n z : ℕ} {m : Memory} (s : IsSegment n z m) where
  open s use {some_slot, prefix, head_in, tail_in}

  pub at_limit : (head_of m + 1) % n ≡ tail_of m → ltb (length (contents n z m)) (n - 1) ≡ false
  at_limit full = le→ltb _ _ (
      omega
        (arith, length-contents n z m, ahead-full n (head_of m) (tail_of m) head_in tail_in full))

  pub below_limit : (head_of m + 1) % n ≢ tail_of m → ltb (length (contents n z m)) (n - 1) ≡ true
  below_limit free = lt→ltb _ _ (
      omega (
        arith,
        length-contents n z m,
        ahead-advance n (head_of m) (tail_of m) head_in tail_in free,
        ahead-lt n ((head_of m + 1) % n) (tail_of m),
      ))

  pub contents-committed :
      (p : Payload)
      → length p + 4 ≤ z
      → (head_of m + 1) % n ≢ tail_of m
      → contents n z (committed n z p m) ≡ contents n z m ++ p ∷ []
  unfolding contents
  contents-committed p room free =
      rw
        (
          head-committed s p room,
          get_field-committed s p room idx_tail (omega arith) (omega arith) (omega arith),
          ahead-advance n (head_of m) (tail_of m) head_in tail_in free,
        )
        (window_snoc (payload_at z m) (payload_at z (committed n z p m)) p n
          (ahead n (head_of m) (tail_of m)) (tail_of m) (head_of m) tail_in
          (ahead-lt n (head_of m) (tail_of m) head_in)
          (sym (ahead-add n (head_of m) (tail_of m) head_in tail_in))
          (λ j lt ne. payload_at-committed_ne s p room j lt ne)
          (payload_at-committed_self s p room))

  pub contents-dropped : contents n z (dropped m) ≡ contents n z m
  unfolding contents dropped
  contents-dropped =
      rw
        (
          get_field-set_field_ne idx_drop_count idx_head _ m (omega arith),
          get_field-set_field_ne idx_drop_count idx_tail _ m (omega arith),
        )
        (window_ext (payload_at z m) _ n (tail_of m) _ tail_in
          (λ j lt. payload_at-set_field z idx_drop_count _ m j (omega arith)))

  rest_of-claimed :
      contents n z (claimed n m)
      ≡ window (payload_at z m) n ((tail_of m + 1) % n) (ahead n (head_of m) ((tail_of m + 1) % n))
  unfolding contents
  rest_of-claimed =
      rw (tail-claimed s, head-claimed m n)
        (window_ext (payload_at z m) _ n ((tail_of m + 1) % n) _ (omega arith)
          (λ j lt. payload_at-claimed z n m j))

  pub contents-claimed :
      tail_of m ≢ head_of m
      → contents n z m ≡ payload_at z m (tail_of m) ∷ contents n z (claimed n m)
  unfolding contents window
  contents-claimed ne =
      ap (window (payload_at z m) n (tail_of m))
        (sym (ahead-claim n (head_of m) (tail_of m) head_in tail_in ne))
      ∙ ap (λ q. payload_at z m (tail_of m) ∷ q) (sym rest_of-claimed)

  pub contents-empty : tail_of m ≡ head_of m → contents n z m ≡ []
  unfolding contents window
  contents-empty e =
      ap (window (payload_at z m) n (tail_of m))
        (ap (ahead n (head_of m)) e ∙ ahead_self n (head_of m) head_in)
