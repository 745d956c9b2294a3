-- ===== src/Vm/Stack/Tests.antt =====
-- Runs of the exception stack, with numbers for jump buffers and annotations, and the theorems at
-- concrete stacks.
use ripe.Prelude.{ℕ, ◌≡◌, refl, arith, false, not, [], ◌∷◌, none, some, replicate, length-replicate}
use ripe.Prelude.Outcome.{Outcome, ok, at, put, Returns, ◌>>=◌}
use ripe.Vm.Stack.{
  stack_size, Klass, base, derived, obj_eq_klass, Element, unset, type_annot, type_catch, State,
  Unwound, jumped, exited, stack_init, stack_push_catch_all, stack_push_catch, stack_push_finally,
  stack_annot_push, stack_pop, annot_pop_from, stack_annot_pop, jump_to, unwind_from,
  stack_continue_unwinding, exc_raise_object,
}
use ripe.Vm.Stack.Frames.{frames, IsStack, push_annot, push_catch, push_finally}
use ripe.Vm.Stack.Calls.{run_pushes, call-frames}
use ripe.Vm.Stack.Unwinding.{Handler, handler, exc_raise_object-handler}

program : Unit {0}
unfolding obj_eq_klass stack_init stack_push_catch_all stack_push_catch stack_push_finally
    stack_annot_push stack_pop annot_pop_from stack_annot_pop jump_to unwind_from
    stack_continue_unwinding exc_raise_object at put
program = tt

abbrev blank : Element ℕ ℕ
blank = record { type = unset; exc_type = 0; jb = 0; annotation = 0 }

abbrev start : State ℕ ℕ
start = record {
  stack = replicate stack_size blank;
  stack_idx = 0;
  exc_jb = 5;
  stack_unwinding = false;
  exc_obj = base 1;
  stack_backup = 0;
}

start-IsStack : IsStack start
start-IsStack = record { width = length-replicate stack_size blank; inside = omega arith }

-- a class 7 below the class 3
abbrev error : Klass
error = derived 7 (base 3)

abbrev height : Unwound ℕ ℕ → ℕ × ℕ
height (jumped r) = (r.stack_idx, r.exc_jb)
height (exited r) = (r.stack_idx, 0)

-- the handler for class 4 does not take the exception, that for class 3 does
abbrev session : Outcome (ℕ × ℕ)
session = do
  s₀ ← stack_annot_push start 1
  s₁ ← stack_push_catch s₀ 3
  s₂ ← stack_push_catch s₁ 4
  s₃ ← stack_annot_push s₂ 2
  u ← exc_raise_object s₃ error
  ok (height u)

session_lem : session ≡ ok (1, 5)
unfolding program
session_lem = refl

call-frames_example :
    Returns
      (run_pushes start (push_annot 1 ∷ push_catch 3 ∷ push_finally ∷ []) >>= stack_annot_pop)
      (λ r. IsStack r × (frames r ≡ frames start))
call-frames_example =
    call-frames start 1 (push_catch 3 ∷ push_finally ∷ []) start-IsStack tt (omega arith)

abbrev two : State ℕ ℕ
two = record start {
  stack =
      record { type = type_annot; exc_type = 0; jb = 0; annotation = 1 }
      ∷ record { type = type_catch; exc_type = 3; jb = 5; annotation = 0 }
      ∷ replicate 1998 blank;
  stack_idx = 2;
  exc_obj = error;
}

two-IsStack : IsStack two
two-IsStack = record { width = omega (arith, length-replicate 1998 blank); inside = omega arith }

exc_raise_object-handler_example :
    (handler error (frames two) ≡ none
      → (r : State ℕ ℕ) × (exc_raise_object two error ≡ ok (exited r)) × (frames r ≡ frames two))
    × ((h : Handler ℕ ℕ)
        → handler error (frames two) ≡ some h
        → (r : State ℕ ℕ) × (exc_raise_object two error ≡ ok (jumped r))
          × IsStack r
          × (frames r ≡ h.below)
          × (r.exc_jb ≡ h.buffer)
          × (r.exc_obj ≡ error)
          × (r.stack_unwinding ≡ not h.catches))
exc_raise_object-handler_example = exc_raise_object-handler two error two-IsStack
