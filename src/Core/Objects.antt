-- ===== src/Core/Objects.antt =====
-- Running an action on one object of the system.
use shm_comm.Prelude.{ℕ, ◌≡◌, refl, ap, fun_ext, ◌∙◌, ◌≢◌, arith, eq→==, ne→==}
use shm_comm.Exec.{Action, Outcome}
use shm_comm.Memory.{Memory}
use shm_comm.Core.Segments.{System, on_object, set_object}

module _ {A : Type 0} (i : ℕ) (act : Action Memory A) (s : System) where
  -- What it returns is what the action returns on that object's memory.
  pub on_object-outcome : (on_object i act s).0 ≡ (act (s.objects i)).0
  unfolding on_object
  on_object-outcome = refl

  pub objects-on_object_self : (on_object i act s).1.objects i ≡ (act (s.objects i)).1
  unfolding on_object
  objects-on_object_self = rw (eq→== i i refl)

  -- The other objects are untouched.
  pub objects-on_object_ne : (j : ℕ) → i ≢ j → (on_object i act s).1.objects j ≡ s.objects j
  unfolding on_object
  objects-on_object_ne j ne = rw (ne→== i j ne)

  pub names-on_object : (on_object i act s).1.names ≡ s.names
  unfolding on_object
  names-on_object = refl

-- Writing back what an object holds changes nothing.
pub set_object-same : (f : ℕ → Memory) (i : ℕ) → set_object f i (f i) ≡ f
set_object-same f i = fun_ext λ j. ground arith

pub on_object-same {ℓ} :
    {A : Type ℓ} (i : ℕ) (act : Action Memory A) (s : System) (r : Outcome A)
    → act (s.objects i) ≡ (r, s.objects i)
    → on_object i act s ≡ (r, s)
unfolding on_object
on_object-same i act s r e =
    ap (λ t. (t.0, record s { objects = set_object s.objects i t.1 })) e
    ∙ ap (λ o. (r, record s { objects = o })) (set_object-same s.objects i)

-- `on_object` when the result of the action is known.
pub on_object-known :
    {A : Type 0} (i : ℕ) (act : Memory → Outcome A × Memory) (s : System) (o : Outcome A)
    (m : Memory)
    → act (s.objects i) ≡ (o, m)
    → on_object i act s ≡ (o, record s { objects = set_object s.objects i m })
unfolding on_object
on_object-known i act s o m e = ap (λ r. (r.0, record s { objects = set_object s.objects i r.1 })) e
