-- ===== src/Exec.antt =====
-- How the model runs Python: exceptions, methods that change an object, and the waiting loops.
-- exceptions.py is `Exn`, with the built-in exceptions that the code can meet; the texts of the
-- messages are left out. What was written before a raise stays written, so the state comes back
-- beside the exception.
pub mod Spin
pub mod Waiting
use shm_comm.Prelude.{ℕ, Bool, ◌%◌, ◌==◌, if◌then◌else◌}

pub data Exn : Type 0 where
  shm_connection_error shm_timeout_error shm_buffer_full_error shm_serialization_error : Exn
  value_error type_error struct_error zero_division_error overflow_error : Exn
  index_error key_error : Exn
  file_not_found_error attribute_error os_error : Exn

-- What a call has come to: a value, an exception, or (`running`) not yet an end within the rounds
-- that the waiting loops were given.
pub data Outcome {ℓ} (A : Type ℓ) : Type ℓ where
  ok : A → Outcome A
  raised : Exn → Outcome A
  running : Outcome A

abbrev pub Action {ℓ κ} : Type ℓ → Type κ → Type (ℓ ⊔ κ)
Action S A = S → Outcome A × S

module _ {ℓ} {S A : Type ℓ} where
  abbrev pub pure : A → Action S A
  pure a s = (ok a, s)

  abbrev pub raise : Exn → Action S A
  raise e s = (raised e, s)

  abbrev pub gets : (S → A) → Action S A
  gets f s = (ok (f s), s)

  abbrev pub lift : Outcome A → Action S A
  lift o s = (o, s)

abbrev pub modify : {S : Type 0} → (S → S) → Action S (Unit {0})
modify f s = (ok tt, f s)

-- `if not test: raise e`
abbrev pub check : {S : Type 0} → Bool → Exn → Action S (Unit {0})
check b e s = if b then (ok tt, s) else (raised e, s)

abbrev pub continue {ℓ κ} :
    {S : Type ℓ} {A B : Type κ} → Outcome A → S → (A → S → Outcome B × S) → Outcome B × S
continue (ok a) s f = f a s
continue (raised e) s f = (raised e, s)
continue running s f = (running, s)

module _ {ℓ} {S A B : Type ℓ} where
  infixl 10 ◌>>=◌ ◌>>◌
  abbrev pub ◌>>=◌ : Action S A → (A → Action S B) → Action S B
  ◌>>=◌ m f s = continue (m s).0 (m s).1 f

  abbrev pub ◌>>◌ : Action S A → Action S B → Action S B
  m >> k = m >>= λ _. k

-- `a % b` raises at zero; the code takes remainders of numbers that are not negative.
unfoldable pub py_mod : {S : Type 0} → ℕ → ℕ → Action S ℕ
py_mod a b s = if b == 0 then (raised zero_division_error, s) else (ok (a % b), s)
