-- ===== src/Lifecycle/Table.antt =====
-- The table of names: what adding and removing one name does to the others.
use shm_comm.Prelude.{
  if◌then◌else◌, ◌∙◌, ℕ, ◌≡◌, refl, false, none, some, List, [], ◌∷◌, arith, Bool-cases, inl, inr,
}
use shm_comm.Names.{Name, same, same_refl, same→eq}
use shm_comm.Core.Segments.{lookup, remove}

pub lookup-remove_self : (name : Name) (t : List (Name × ℕ)) → lookup name (remove name t) ≡ none
unfolding lookup remove
lookup-remove_self name [] = refl
lookup-remove_self name ((key, i) ∷ t) = ground (arith, lookup-remove_self name t)

pub lookup-remove_ne :
    (name other : Name) (t : List (Name × ℕ))
    → same name other ≡ false
    → lookup other (remove name t) ≡ lookup other t
unfolding lookup remove
lookup-remove_ne name other [] h = refl
lookup-remove_ne name other ((key, i) ∷ t) h = elim (Bool-cases (same key name)) [
  | inl e ↦ ground (arith, lookup-remove_ne name other t h, same→eq key name e)
  | inr e ↦ ground (arith, lookup-remove_ne name other t h)
]

pub lookup-cons_self :
    (name : Name) (i : ℕ) (t : List (Name × ℕ)) → lookup name ((name, i) ∷ t) ≡ some i
unfolding lookup
lookup-cons_self name i t = rw same_refl

pub lookup-cons_ne :
    (name other : Name) (i : ℕ) (t : List (Name × ℕ))
    → same name other ≡ false
    → lookup other ((name, i) ∷ t) ≡ lookup other t
unfolding lookup
lookup-cons_ne name other i t h = rw h

pub lookup-remove :
    (name other : Name) (t : List (Name × ℕ))
    → lookup other (remove name t) ≡ (if same name other then none else lookup other t)
lookup-remove name other t = elim (Bool-cases (same name other)) [
  | inl e ↦ rw (e, ← same→eq name other e) (lookup-remove_self name t)
  | inr e ↦ rw e (lookup-remove_ne name other t e)
]

pub lookup-cons_remove :
    (name other : Name) (i : ℕ) (t : List (Name × ℕ))
    → lookup other ((name, i) ∷ remove name t)
      ≡ (if same name other then some i else lookup other t)
lookup-cons_remove name other i t = elim (Bool-cases (same name other)) [
  | inl e ↦ rw (e, ← same→eq name other e) (lookup-cons_self name i (remove name t))
  | inr e ↦ rw e (lookup-cons_ne name other i (remove name t) e ∙ lookup-remove_ne name other t e)
]
