-- ===== src/Vm/Stack.antt =====
-- The stack of annotations and exception handlers of vm/stack.c, with obj_eq_klass of vm/klass.c.
-- `J` is what a jmp_buf holds and `A` an annotation. A longjmp is a value: where it goes, with the
-- state that it leaves. The stack is the array of STACK_SIZE elements, which no push checks.
pub mod Frames
pub mod Calls
pub mod Unwinding
mod Tests
use ripe.Prelude.{ℕ, zero, suc, ◌+◌, ◌-◌, Bool, true, false, ◌==◌, ltb, if◌then◌else◌, List, length}
use ripe.Prelude.Outcome.{Outcome, ok, stop, assertion, assert, at, put, ◌>>=◌, ◌>>◌}

-- STACK_SIZE
abbrev pub stack_size : ℕ
stack_size = 2000

-- the address of a class, and the classes that it derives from
pub data Klass : Type 0 where
  base : ℕ → Klass
  derived : ℕ → Klass → Klass

pub obj_eq_klass : Klass → ℕ → Bool
obj_eq_klass (base kl) k = kl == k
obj_eq_klass (derived kl parent) k = if kl == k then true else obj_eq_klass parent k

-- 0 for an element that was never set, TYPE_ANNOT, TYPE_CATCH_ALL, TYPE_CATCH, TYPE_FINALLY
pub data ElementType : Type 0 where
  unset type_annot type_catch_all type_catch type_finally : ElementType

pub record Element {ℓ} (J A : Type ℓ) : Type ℓ where
  pub type : ElementType
  pub exc_type : ℕ
  pub jb : J
  pub annotation : A

-- the variables of the file; of `exc_obj`, its class
pub record State {ℓ} (J A : Type ℓ) : Type ℓ where
  pub stack : List (Element J A)
  pub stack_idx : ℕ
  pub exc_jb : J
  pub stack_unwinding : Bool
  pub exc_obj : Klass
  pub stack_backup : ℕ

-- the two ends of `stack_continue_unwinding`: `longjmp(exc_jb, 1)` and `exit(1)`
pub data Unwound {ℓ} (J A : Type ℓ) : Type ℓ where
  jumped : State J A → Unwound J A
  exited : State J A → Unwound J A

module _ {ℓ} {J A : Type ℓ} where
  pub stack_init : State J A → State J A
  stack_init s = record s { stack_unwinding = false }

  -- an element is set field by field, then `stack_idx++`
  pub stack_push_catch_all : State J A → Outcome (State J A)
  stack_push_catch_all s = do
    e ← at s.stack s.stack_idx
    st ← put s.stack s.stack_idx (record e { type = type_catch_all; jb = s.exc_jb })
    ok (record s { stack = st; stack_idx = s.stack_idx + 1 })

  pub stack_push_catch : State J A → ℕ → Outcome (State J A)
  stack_push_catch s exc_type = do
    e ← at s.stack s.stack_idx
    st ←
        put s.stack s.stack_idx (record e { type = type_catch; exc_type = exc_type; jb = s.exc_jb })
    ok (record s { stack = st; stack_idx = s.stack_idx + 1 })

  pub stack_push_finally : State J A → Outcome (State J A)
  stack_push_finally s = do
    e ← at s.stack s.stack_idx
    st ← put s.stack s.stack_idx (record e { type = type_finally; jb = s.exc_jb })
    ok (record s { stack = st; stack_idx = s.stack_idx + 1 })

  pub stack_annot_push : State J A → A → Outcome (State J A)
  stack_annot_push s annotation = do
    e ← at s.stack s.stack_idx
    st ← put s.stack s.stack_idx (record e { type = type_annot; annotation = annotation })
    ok (record s { stack = st; stack_idx = s.stack_idx + 1 })

  pub stack_pop : State J A → Outcome (State J A)
  stack_pop s = do assert (ltb 0 s.stack_idx); ok (record s { stack_idx = s.stack_idx - 1 })

  -- the loop of `stack_annot_pop`, on `stack_idx`
  pub annot_pop_from : List (Element J A) → ℕ → Outcome ℕ
  annot_pop_from stack zero = stop assertion
  annot_pop_from stack (suc idx) = do
    e ← at stack idx
    elim e.type [ type_annot ↦ ok idx | _ ↦ annot_pop_from stack idx ]

  pub stack_annot_pop : State J A → Outcome (State J A)
  stack_annot_pop s = do idx ← annot_pop_from s.stack s.stack_idx; ok (record s { stack_idx = idx })

  -- `exc_jb = stack[stack_idx].jb; longjmp(exc_jb, 1)`
  pub jump_to : State J A → ℕ → J → Bool → Unwound J A
  jump_to s idx jb unwinding =
      jumped (record s { stack_idx = idx; exc_jb = jb; stack_unwinding = unwinding })

  -- the loop of `stack_continue_unwinding`, on `stack_idx`
  pub unwind_from : State J A → ℕ → Outcome (Unwound J A)
  unwind_from s zero = ok (exited (record s { stack_idx = s.stack_backup }))
  unwind_from s (suc idx) = do
    e ← at s.stack idx
    elim e.type [
      | unset ↦ unwind_from s idx
      | type_annot ↦ unwind_from s idx
      | type_catch_all ↦ ok (jump_to s idx e.jb false)
      | type_catch ↦ elim (obj_eq_klass s.exc_obj e.exc_type) [
        | true ↦ ok (jump_to s idx e.jb false)
        | false ↦ unwind_from s idx
      ]
      | type_finally ↦ ok (jump_to s idx e.jb s.stack_unwinding)
    ]

  pub stack_continue_unwinding : State J A → Outcome (Unwound J A)
  stack_continue_unwinding s = unwind_from s s.stack_idx

  pub exc_raise_object : State J A → Klass → Outcome (Unwound J A)
  exc_raise_object s obj =
      stack_continue_unwinding
        (record s { stack_backup = s.stack_idx; stack_unwinding = true; exc_obj = obj })
