-- ===== src/Utils/Cleanup.antt =====
-- utils.py: `force_unlink` and `list_segments`.
use shm_comm.Prelude.{
  ℕ, ◌≡◌, refl, sym, ◌∙◌, Bool, ◌⊎◌, inl, inr, Bool-cases, ◌||◌, ◌&&◌, arith, true, false, Option,
  none, some, List, [], ◌∷◌, if◌then◌else◌,
}
use shm_comm.Exec.{Action, ok}
use shm_comm.Names.{
  Name, Kind, segment_name, starts_with-segment_name, codes, same, same_refl, same→eq, starts_with,
}
use shm_comm.Core.Segments.{System, blocked, lookup, remove}
use shm_comm.Utils.Platform.{platform_name, is_linux, is_linux-platform_name}
use shm_comm.Lifecycle.Table.{lookup-remove}

abbrev pub found : Option ℕ → Bool
found none = false
found (some i) = true

-- `none` is FileNotFoundError.
abbrev pub unlink_found : Name → Option ℕ → Action System Bool
unlink_found name none s = (ok false, s)
unlink_found name (some i) s = (ok true, record s { names = remove name s.names })

unfoldable pub force_unlink : Name → Action System Bool
force_unlink name s =
    if blocked name s then (ok false, s) else unlink_found name (lookup name s.names) s

-- Whether a segment that can be opened stands under the name.
abbrev pub opened : Name → System → Bool
opened name s = if blocked name s then false else found (lookup name s.names)

-- `[entry for entry in entries if entry.startswith("shmcomm_")]`
unfoldable pub only_ours : List (Name × ℕ) → List Name
only_ours [] = []
only_ours ((entry, i) ∷ entries) =
    let rest = only_ours entries in
    if starts_with (codes "shmcomm_") entry then entry ∷ rest else rest

-- `platform` is `sys.platform`; the directory lists the names of all segments.
unfoldable pub list_segments : Name → Action System (List Name)
unfolding only_ours
list_segments platform s = (ok (if is_linux platform then only_ours s.names else []), s)

Option-cases : (o : Option ℕ) → (o ≡ none) ⊎ ((i : ℕ) × (o ≡ some i))
Option-cases none = inl refl
Option-cases (some i) = inr (i, refl)

-- force_unlink answers whether an object that can be opened, which is one with bytes, stands
-- under the name, changes no object, and takes away that name in that case, and no other.
pub force_unlink_lem :
    (name : Name) (s : System)
    → (s' : System) × (force_unlink name s ≡ (ok (opened name s), s'))
      × (s'.objects ≡ s.objects)
      × ((other : Name)
          → lookup other s'.names
            ≡ (if opened name s && same name other then none else lookup other s.names))
unfolding force_unlink
force_unlink_lem name s = elim (Bool-cases (blocked name s)) [
  | inl b ↦ (s, rw b, refl, λ other. rw b refl)
  | inr b ↦ elim (Option-cases (lookup name s.names)) [
    | inl e ↦ (s, rw (b, e), refl, λ other. rw (b, e) refl)
    | inr (i, e) ↦ (
      record s { names = remove name s.names },
      rw (b, e),
      refl,
      λ other. rw (b, e) (lookup-remove name other s.names),
    )
  ]
]

-- The name is in the list.
unfoldable pub listed : Name → List Name → Bool
listed name [] = false
listed name (x ∷ xs) = same name x || listed name xs

listed-only_ours :
    (name : Name) (t : List (Name × ℕ)) (i : ℕ)
    → lookup name t ≡ some i
    → starts_with (codes "shmcomm_") name ≡ true
    → listed name (only_ours t) ≡ true
unfolding listed only_ours lookup
listed-only_ours name [] i e h = cc
listed-only_ours name ((key, j) ∷ t) i e h = elim (Bool-cases (same key name)) [
  | inl b ↦ rw (same→eq key name b, h, same_refl name) refl
  | inr b ↦
      let rest = listed-only_ours name t i (rw (← e, b) refl) h in
      elim (Bool-cases (starts_with (codes "shmcomm_") key)) [
        | inl ours ↦ rw (ours, rest) (ground arith)
        | inr other ↦ rw other rest
      ]
]

-- A segment that stands under the name that one of the four name functions gives to a channel is
-- among those that list_segments lists if platform_name gives linux, and is not among them
-- otherwise; listing changes nothing.
pub list_segments_lem :
    (platform : Name) (k : Kind) (channel : Name) (s : System) (i : ℕ)
    → lookup (segment_name k channel) s.names ≡ some i
    → (names : List Name) × (list_segments platform s ≡ (ok names, s))
      × (listed (segment_name k channel) names ≡ same (platform_name platform) (codes "linux"))
unfolding list_segments listed
list_segments_lem platform k channel s i e = elim (Bool-cases (is_linux platform)) [
  | inl linux ↦ (
    only_ours s.names,
    rw linux refl,
    listed-only_ours (segment_name k channel) s.names i e (starts_with-segment_name k channel)
        ∙ sym linux
        ∙ is_linux-platform_name platform,
  )
  | inr other ↦ ([], rw other refl, sym other ∙ is_linux-platform_name platform)
]
