-- ===== src/Race/Broadcast/Reading.antt =====
-- What a reader with a private cursor knows: which publications it has read, and what its local
-- variables say about the slot it is at.
use shm_comm.Prelude.{
  ℕ, suc, ◌+◌, ◌%◌, ◌<◌, ◌≤◌, ◌≡◌, ◌≢◌, sym, ap, ap₂, subst, ◌∙◌, some, List, [], ◌∷◌, ◌++◌,
  append_assoc, length, length-append, get_elem?, get_elem?-append, drop, drop-append,
  drop-get_elem?, arith, le→leb, eq→==, ne→==, ℕ_discrete,
}
use shm_comm.Exec.{ok, py_mod}
use shm_comm.Memory.{Memory}
use shm_comm.Core.Header.{get_header, field}
use shm_comm.Fifo.{Payload}
use shm_comm.Buffer.{slot_offset, unpack_from, load_slice}
use shm_comm.Buffer.Slots.{size_at, payload_at}
use shm_comm.Buffer.SlotReads.{length-payload_at, unpack_from-size_at, load_slice-payload_at}
use shm_comm.Buffer.Queue.{head_of}
use shm_comm.Race.{Place}
use shm_comm.Race.Broadcast.{WatcherPc, Watcher, payload_read, got, watcher_turn, join, called}
use shm_comm.Race.Broadcast.Held.{Held}
use shm_comm.Race.Broadcast.Places.{slot_of, slot_of-lt, slot_of-suc, get_elem?-lt}

-- The number of the publication that a reader reads next.
abbrev pub place : Watcher → ℕ
place w = w.joined + length w.received

module _ (n z base : ℕ) (sent : List Payload) (at : ℕ) where
  abbrev pub IsChosen : Place → Type 0
  IsChosen l =
      (l.tail ≡ slot_of n base at) × (l.num_slots ≡ n) × (l.slot_size ≡ z) × (at < length sent)

  abbrev pub PcFact : WatcherPc → Type 0
  PcFact (WatcherPc.saw_head h) = (k : ℕ) × (at ≤ k) × (k ≤ length sent) × (h ≡ slot_of n base k)
  PcFact (WatcherPc.chosen l) = IsChosen l
  PcFact (WatcherPc.sized l x) =
      IsChosen l × ((p : Payload) × (get_elem? sent at ≡ some p) × (x ≡ length p))
  PcFact WatcherPc.failed = ⊥
  PcFact _ = Unit

pub record Follows (n z base : ℕ) (sent : List Payload) (w : Watcher) : Type 0 where
  pub cursor : w.local_tail ≡ slot_of n base (place w)
  pub behind : place w ≤ length sent
  pub order : drop w.joined sent ≡ w.received ++ drop (place w) sent
  pub knows : PcFact n z base sent (place w) w.pc

grown-PcFact :
    (n z base at : ℕ) (sent ps : List Payload) (pc : WatcherPc)
    → PcFact n z base sent at pc
    → PcFact n z base (sent ++ ps) at pc
grown-PcFact n z base at sent ps WatcherPc.resting f = tt
grown-PcFact n z base at sent ps WatcherPc.entered f = tt
grown-PcFact n z base at sent ps (WatcherPc.saw_head h) (k, le, within, e) =
    (k, le, omega (arith, length-append sent ps), e)
grown-PcFact n z base at sent ps (WatcherPc.chosen l) (a, b, c, lt) =
    (a, b, c, omega (arith, length-append sent ps))
grown-PcFact n z base at sent ps (WatcherPc.sized l x) ((a, b, c, lt), (p, e, size)) =
    ((a, b, c, omega (arith, length-append sent ps)), (p, get_elem?-append sent ps at lt ∙ e, size))
grown-PcFact n z base at sent ps WatcherPc.failed f = f

-- More publications take nothing away.
pub grown-Follows :
    {n z base : ℕ} {sent : List Payload} {w : Watcher} (ps : List Payload)
    → Follows n z base sent w
    → Follows n z base (sent ++ ps) w
grown-Follows {n} {z} {base} {sent} {w} ps f = record {
  cursor = f.cursor;
  behind = omega (arith, f.behind, length-append sent ps);
  order =
      drop-append sent ps w.joined (omega (arith, f.behind))
      ∙ ap (λ xs. xs ++ ps) f.order
      ∙ append_assoc w.received (drop (place w) sent) ps
      ∙ ap (λ xs. w.received ++ xs) (sym (drop-append sent ps (place w) f.behind));
  knows = grown-PcFact n z base (place w) sent ps w.pc f.knows;
}

called-PcFact :
    (n z base at : ℕ) (sent : List Payload) (pc : WatcherPc)
    → PcFact n z base sent at pc
    → PcFact n z base sent at (called pc)
called-PcFact n z base at sent WatcherPc.resting f = tt
called-PcFact n z base at sent WatcherPc.entered f = tt
called-PcFact n z base at sent (WatcherPc.saw_head h) f = f
called-PcFact n z base at sent (WatcherPc.chosen l) f = f
called-PcFact n z base at sent (WatcherPc.sized l x) f = f
called-PcFact n z base at sent WatcherPc.failed f = f

module _ {n z base : ℕ} {m : Memory} {sent : List Payload} (v : Held n z base m sent) {w : Watcher}
    (f : Follows n z base sent w) where
  to-Follows :
      (pc : WatcherPc)
      → PcFact n z base sent (place w) pc
      → Follows n z base sent (record w { pc = pc })
  to-Follows pc k = record { cursor = f.cursor; behind = f.behind; order = f.order; knows = k }

  pub called-Follows : Follows n z base sent (record w { pc = called w.pc })
  called-Follows = to-Follows (called w.pc) (called-PcFact n z base (place w) sent w.pc f.knows)

  join-Follows_at : (pc : WatcherPc) → Follows n z base sent (join pc (length sent) m w)
  unfolding join get_header field
  join-Follows_at WatcherPc.resting =
      rw (le→leb 128 m.size (omega (arith, v.segment.fits, v.segment.some_slot))) (record {
        cursor = v.head ∙ ap (slot_of n base) (omega arith);
        behind = omega arith;
        order = ap (λ k. drop k sent) (omega arith);
        knows = tt;
      })
  join-Follows_at WatcherPc.entered = f
  join-Follows_at (WatcherPc.saw_head h) = f
  join-Follows_at (WatcherPc.chosen l) = f
  join-Follows_at (WatcherPc.sized l x) = f
  join-Follows_at WatcherPc.failed = f

  at_slot : slot_of n base (place w) < n
  at_slot = slot_of-lt n base (place w) v.segment.some_slot

  -- The next publication stands in its slot.
  next_one :
      place w < length sent
      → length sent < place w + n
      → (p : Payload) × (get_elem? sent (place w) ≡ some p)
        × (payload_at z m (slot_of n base (place w)) ≡ p)
        × (size_at z m (slot_of n base (place w)) ≡ length p)
  next_one lt near =
      let g : (p : Payload) × (get_elem? sent (place w) ≡ some p) =
        get_elem?-lt sent (place w) lt in
      let e : payload_at z m (slot_of n base (place w)) ≡ g.0 = v.kept (place w) g.0 g.1 near in
      (g.0, g.1, e, sym (length-payload_at v.segment _ at_slot) ∙ ap length e)

  taken :
      (p : Payload)
      → get_elem? sent (place w) ≡ some p
      → place w < length sent
      → Follows n z base sent (got (ok (p, slot_of n base (suc (place w)))) w)
  taken p e lt =
      let one_more : w.joined + length (w.received ++ p ∷ []) ≡ suc (place w) =
        omega (arith, length-append w.received (p ∷ [])) in
      record {
        cursor = ap (slot_of n base) (sym one_more);
        behind = omega (arith, one_more);
        order =
            f.order
            ∙ ap (λ xs. w.received ++ xs) (drop-get_elem? (place w) sent p (sym e))
            ∙ sym (append_assoc w.received (p ∷ []) (drop (suc (place w)) sent))
            ∙ ap (λ k. (w.received ++ p ∷ []) ++ drop k sent) (sym one_more);
        knows = tt;
      }

  unread :
      (h j : ℕ)
      → place w ≤ j
      → j ≤ length sent
      → h ≡ slot_of n base j
      → w.local_tail ≢ h
      → place w < length sent
  unread h j le within e other = elim (ℕ_discrete (place w) j) [
    | yes same ↦ absurd (other (f.cursor ∙ ap (slot_of n base) same ∙ sym e))
    | no ne ↦ omega arith
  ]

  loaded :
      (p : Payload)
      → get_elem? sent (place w) ≡ some p
      → length sent < place w + n
      → load_slice (slot_offset (slot_of n base (place w)) z + 4) (length p) m ≡ (ok p, m)
  loaded p e near =
      let held : payload_at z m (slot_of n base (place w)) ≡ p = v.kept (place w) p e near in
      ap (λ k. load_slice (slot_offset (slot_of n base (place w)) z + 4) k m)
        (ap length (sym held) ∙ length-payload_at v.segment _ at_slot)
      ∙ load_slice-payload_at z (slot_of n base (place w)) m
      ∙ ap (λ q. (ok q, m)) held

  read :
      (l : Place) (x : ℕ)
      → l.tail ≡ slot_of n base (place w)
      → l.num_slots ≡ n
      → l.slot_size ≡ z
      → (p : Payload) → get_elem? sent (place w) ≡ some p
      → x ≡ length p
      → length sent < place w + n
      → (payload_read l x m).0 ≡ ok (p, slot_of n base (suc (place w)))
  unfolding py_mod
  read l x a b c p e size near =
      let there : load_slice (slot_offset l.tail l.slot_size + 4) x m ≡ (ok p, m) =
        ap₂ (λ i j. load_slice (slot_offset i j + 4) x m) a c
        ∙ ap (λ k. load_slice (slot_offset (slot_of n base (place w)) z + 4) k m) size
        ∙ loaded p e near in
      rw (there, ne→== l.num_slots 0 (omega (arith, v.segment.some_slot)))
        (ap (λ t. ok (p, t)) (ap₂ (λ (i j : ℕ). (i + 1) % j) a b ∙ slot_of-suc n base (place w)))

  sized-Follows :
      (l : Place) (x : ℕ)
      → l.tail ≡ slot_of n base (place w)
      → l.num_slots ≡ n
      → l.slot_size ≡ z
      → (p : Payload) → get_elem? sent (place w) ≡ some p
      → x ≡ length p
      → place w < length sent
      → length sent < place w + n
      → Follows n z base sent (got (payload_read l x m).0 w)
  sized-Follows l x a b c p e size lt near =
      subst (λ r. Follows n z base sent (got r w)) (sym (read l x a b c p e size near))
        (taken p e lt)

  pub watcher_turn-Follows :
      (pc : WatcherPc)
      → PcFact n z base sent (place w) pc
      → length sent < place w + n
      → Follows n z base sent (watcher_turn pc w m)
  unfolding watcher_turn get_header field
  watcher_turn-Follows WatcherPc.resting k near = f
  watcher_turn-Follows WatcherPc.entered k near =
      rw (le→leb 128 m.size (omega (arith, v.segment.fits, v.segment.some_slot)))
        (to-Follows (WatcherPc.saw_head (head_of m)) (length sent, f.behind, omega arith, v.head))
  watcher_turn-Follows (WatcherPc.saw_head h) (j, le, within, e) near =
      elim (ℕ_discrete w.local_tail h) [
        | yes same ↦ rw (eq→== w.local_tail h same) (to-Follows WatcherPc.resting tt)
        | no other ↦ rw (ne→== w.local_tail h other) (
            to-Follows (WatcherPc.chosen _)
              (f.cursor, v.segment.num_slots, v.segment.slot_size, unread h j le within e other))
      ]
  watcher_turn-Follows (WatcherPc.chosen l) (a, b, c, lt) near =
      let o : (p : Payload) × (get_elem? sent (place w) ≡ some p)
          × (payload_at z m (slot_of n base (place w)) ≡ p)
          × (size_at z m (slot_of n base (place w)) ≡ length p) =
        next_one lt near in
      rw
        (ap₂ (λ i j. unpack_from (slot_offset i j) m) a c ∙ unpack_from-size_at v.segment _ at_slot)
        (to-Follows (WatcherPc.sized l _) ((a, b, c, lt), (o.0, o.1, o.3)))
  watcher_turn-Follows (WatcherPc.sized l x) ((a, b, c, lt), (p, e, size)) near =
      sized-Follows l x a b c p e size lt near
  watcher_turn-Follows WatcherPc.failed k near = absurd k

  pub join-Follows : Follows n z base sent (join w.pc (length sent) m w)
  join-Follows = join-Follows_at w.pc
