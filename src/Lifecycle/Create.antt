-- ===== src/Lifecycle/Create.antt =====
-- `create_segment` and `close_segment`.
use shm_comm.Prelude.{
  ◌&&◌, ◌==◌, ℕ, suc, ◌+◌, ◌*◌, ◌^◌, ◌≤◌, ◌<◌, ◌≡◌, refl, ap, fun_ext, Bool, true, false, none,
  some, Option, [], ◌∷◌, arith, eq→==, if◌then◌else◌, ◌⊎◌,
}
use shm_comm.Exec.{Outcome, ok, raised, shm_connection_error}
use shm_comm.Memory.{Memory}
use shm_comm.Names.{Name, same}
use shm_comm.Core.Segments.{
  System, without_bytes, SharedMemory, lookup, remove, set_object, create_segment, close_segment,
  blocked, unlink_stale, allocate,
}
use shm_comm.Buffer.Segment.{IsSegment}
use shm_comm.Buffer.Queue.{contents}
use shm_comm.Lifecycle.Init.{
  zeros, initialised, init_header-initialised, initialised-IsSegment, contents-initialised,
}
use shm_comm.Core.Header.{set_field}
use shm_comm.Lifecycle.Table.{lookup-remove, lookup-remove_self, lookup-cons_remove}

-- The system after a segment was created under `name`.
unfoldable pub created : Name → ℕ → ℕ → System → System
created name n z s = record s {
  names = (name, s.next) ∷ remove name s.names;
  objects = set_object s.objects s.next (initialised n z (zeros (128 + n * z)));
  next = suc s.next;
}

set_object_twice :
    (f : ℕ → Memory) (i : ℕ) (a b : Memory) → set_object (set_object f i a) i b ≡ set_object f i b
set_object_twice f i a b = fun_ext λ j. ground arith

module _ (granted : Name → ℕ → Bool) (name : Name) (n z : ℕ) (s : System) where
  -- If an object without bytes stands under the name, or the operating system does not accept the
  -- name with that size, creation raises the connection error. No object is changed, and no name but
  -- a stale one that could be opened is lost.
  pub create_segment-refused :
      (blocked name s ≡ true) ⊎ (granted name (128 + n * z) ≡ false)
      → create_segment granted name n z s ≡ (raised shm_connection_error, unlink_stale name s)
  unfolding create_segment unlink_stale blocked allocate
  create_segment-refused h = ground (arith, lookup-remove_self name s.names)

module _ (granted : Name → ℕ → Bool) (name : Name) (n z : ℕ) (s : System) (few : n < 2 ^ 63)
    (narrow : z ≤ 2 ^ 32) where
  pub create_segment-created :
      blocked name s ≡ false
      → granted name (128 + n * z) ≡ true
      → create_segment granted name n z s
        ≡ (ok (record { name = name; object = s.next }), created name n z s)
  unfolding create_segment unlink_stale created
  create_segment-created clear h =
      rw
        (
          clear,
          lookup-remove_self name s.names,
          h,
          eq→== s.next s.next refl,
          init_header-initialised n z (zeros (128 + n * z)) few narrow (omega arith),
        )
        (ap {B = Outcome SharedMemory × System}
          (λ o. (
            ok (record { name = name; object = s.next }),
            record s {
              names = (name, s.next) ∷ remove name s.names;
              objects = o;
              next = suc s.next;
            },
          ))
          (set_object_twice s.objects s.next (zeros (128 + n * z))
            (initialised n z (zeros (128 + n * z)))))

-- What a new segment is, and what its creation leaves alone.
module _ (name : Name) (n z : ℕ) (s : System) where
  pub object-created : (created name n z s).objects s.next ≡ initialised n z (zeros (128 + n * z))
  unfolding created
  object-created = rw (eq→== s.next s.next refl)

  pub lookup-created :
      (other : Name)
      → lookup other (created name n z s).names
        ≡ (if same name other then some s.next else lookup other s.names)
  unfolding created
  lookup-created other = lookup-cons_remove name other s.next s.names

  pub objects-created :
      (i : ℕ)
      → (created name n z s).objects i
        ≡ (if s.next == i then (created name n z s).objects s.next else s.objects i)
  unfolding created
  objects-created i = ground arith

-- If there is at least one slot, and fewer than 2^63, of 4 to 2^32 bytes, no object without bytes
-- stands under the name, and the operating system accepts the name with the size that results,
-- then creation succeeds with an empty, well-formed segment under the name, whatever other object
-- stood there before. All other names keep their objects, and every object but the new one keeps
-- its content, also the one that had the name.
pub create_segment-fresh :
    (granted : Name → ℕ → Bool) (name : Name) (n z : ℕ) (s : System)
    → 0 < n
    → n < 2 ^ 63
    → 4 ≤ z
    → z ≤ 2 ^ 32
    → blocked name s ≡ false
    → granted name (128 + n * z) ≡ true
    → (s' : System) × (create_segment granted name n z s
        ≡ (ok (record { name = name; object = s.next }), s'))
      × IsSegment n z (s'.objects s.next)
      × (contents n z (s'.objects s.next) ≡ [])
      × ((other : Name)
          → lookup other s'.names ≡ (if same name other then some s.next else lookup other s.names))
      × ((i : ℕ) → s'.objects i ≡ (if s.next == i then s'.objects s.next else s.objects i))
create_segment-fresh granted name n z s some_slot few prefix narrow clear h = (
  created name n z s,
  create_segment-created granted name n z s few narrow clear h,
  rw (object-created name n z s) (initialised-IsSegment n z some_slot few prefix narrow),
  rw (object-created name n z s) (contents-initialised n z some_slot few prefix narrow),
  lookup-created name n z s,
  objects-created name n z s,
)

-- Closing never raises and never changes an object. With destroy it takes away the name that the
-- segment was opened by, and no other; without, no name.
pub close_segment_lem :
    (shm : SharedMemory) (destroy : Bool) (s : System)
    → (s' : System) × (close_segment shm destroy s ≡ (ok tt, s'))
      × (s'.objects ≡ s.objects)
      × ((name : Name)
          → lookup name s'.names
            ≡ (if destroy && same shm.name name then none else lookup name s.names))
unfolding close_segment
close_segment_lem shm true s = (
  record s { names = remove shm.name s.names },
  refl,
  refl,
  λ name. lookup-remove shm.name name s.names,
)
close_segment_lem shm false s = (s, refl, refl, λ name. refl)

without_bytes-created :
    (name : Name) (n z : ℕ) (s : System) (o : Option ℕ)
    → without_bytes o s ≡ false
    → without_bytes o (created name n z s) ≡ false
unfolding created initialised set_field
without_bytes-created name n z s none h = refl
without_bytes-created name n z s (some i) h = ground arith

-- A new segment blocks no other name.
pub blocked-created :
    (name other : Name) (n z : ℕ) (s : System)
    → same name other ≡ false
    → blocked other s ≡ false
    → blocked other (created name n z s) ≡ false
unfolding blocked
blocked-created name other n z s apart clear =
    rw (lookup-created name n z s other, apart)
      (without_bytes-created name n z s (lookup other s.names) clear)
