-- ===== src/Vm/Stack/Unwinding.antt =====
-- Where stack_continue_unwinding and exc_raise_object go, on the list of frames.
use ripe.Prelude.{
  ℕ, zero, suc, ◌≤◌, ◌<◌, ◌≡◌, refl, sym, ap, ◌∙◌, arith, Bool, true, false, not, Bool-cases, inl,
  inr, List, [], ◌∷◌, Option, none, some, length, if◌then◌else◌,
}
use ripe.Prelude.Outcome.{ok, at}
use ripe.Vm.Stack.{
  Klass, obj_eq_klass, Element, ElementType, unset, type_annot, type_catch_all, type_catch,
  type_finally, State, jumped, exited, jump_to, unwind_from, stack_continue_unwinding,
  exc_raise_object,
}
use ripe.Vm.Stack.Frames.{
  Frame, idle, annot, catch_all, catch, finally, frame, frame_at, frames_of, frames, IsStack,
  element_at,
}

-- a handler's jump buffer, whether it catches (or only passes by), and the frames below it
pub record Handler {ℓ} (J A : Type ℓ) : Type ℓ where
  pub buffer : J
  pub catches : Bool
  pub below : List (Frame J A)

if_not : (b : Bool) → (if b then false else true) ≡ not b
if_not true = refl
if_not false = refl

some-injective {ℓ} : {A : Type ℓ} {a b : A} → some a ≡ some b → a ≡ b
some-injective e = cc

module _ {ℓ} {J A : Type ℓ} where
  -- the topmost handler that an exception of this class goes to
  abbrev pub handler : Klass → List (Frame J A) → Option (Handler J A)
  handler obj [] = none
  handler obj (idle ∷ fs) = handler obj fs
  handler obj (annot a ∷ fs) = handler obj fs
  handler obj (catch_all j ∷ fs) = some (record { buffer = j; catches = true; below = fs })
  handler obj (catch k j ∷ fs) =
      let rest = handler obj fs in
      if obj_eq_klass obj k then some (record { buffer = j; catches = true; below = fs }) else rest
  handler obj (finally j ∷ fs) = some (record { buffer = j; catches = false; below = fs })

  -- what the loop of `stack_continue_unwinding` does from the lowest `n` elements
  data Unwinds (s : State J A) (n : ℕ) : Type ℓ where
    uncaught :
        handler s.exc_obj (frames_of n s.stack) ≡ none
        → unwind_from s n ≡ ok (exited (record s { stack_idx = s.stack_backup }))
        → Unwinds s n
    handled :
        (idx : ℕ) (j : J) (c : Bool)
        → idx < n
        → handler s.exc_obj (frames_of n s.stack)
          ≡ some (record { buffer = j; catches = c; below = frames_of idx s.stack })
        → unwind_from s n ≡ ok (jump_to s idx j (if c then false else s.stack_unwinding))
        → Unwinds s n

  skip :
      (s : State J A) (n : ℕ)
      → handler s.exc_obj (frames_of (suc n) s.stack) ≡ handler s.exc_obj (frames_of n s.stack)
      → unwind_from s (suc n) ≡ unwind_from s n
      → Unwinds s n
      → Unwinds s (suc n)
  skip s n e e' (uncaught h run) = uncaught (e ∙ h) (e' ∙ run)
  skip s n e e' (handled idx j c lt h run) = handled idx j c (omega arith) (e ∙ h) (e' ∙ run)

  unwind_step :
      (s : State J A) (n : ℕ) (e : Element J A) (t : ElementType)
      → e.type ≡ t
      → at s.stack n ≡ ok e
      → frame_at s.stack n ≡ frame e
      → Unwinds s n
      → Unwinds s (suc n)
  unfolding unwind_from
  unwind_step s n e unset te run here u = skip s n (rw (here, te) refl) (rw (run, te) refl) u
  unwind_step s n e type_annot te run here u = skip s n (rw (here, te) refl) (rw (run, te) refl) u
  unwind_step s n e type_catch_all te run here u =
      handled n e.jb true (omega arith) (rw (here, te) refl) (rw (run, te) refl)
  unwind_step s n e type_catch te run here u =
      elim (Bool-cases (obj_eq_klass s.exc_obj e.exc_type)) [
        | inl b ↦ handled n e.jb true (omega arith) (rw (here, te, b) refl) (rw (run, te, b) refl)
        | inr b ↦ skip s n (rw (here, te, b) refl) (rw (run, te, b) refl) u
      ]
  unwind_step s n e type_finally te run here u =
      handled n e.jb false (omega arith) (rw (here, te) refl) (rw (run, te) refl)

  unwinds : (s : State J A) (n : ℕ) → n ≤ length s.stack → Unwinds s n
  unfolding unwind_from
  unwinds s zero h = uncaught refl refl
  unwinds s (suc n) h =
      let (e, run, here) = element_at s.stack n (omega arith) in
      unwind_step s n e e.type refl run here (unwinds s n (omega arith))

  -- the state in which control arrives at a handler
  pub record Lands (s : State J A) (h : Handler J A) (r : State J A) : Type ℓ where
    pub valid : IsStack r
    pub frames_below : frames r ≡ h.below
    pub buffer : r.exc_jb ≡ h.buffer
    pub unwinding : r.stack_unwinding ≡ (if h.catches then false else s.stack_unwinding)
    pub object : r.exc_obj ≡ s.exc_obj

  -- stack_continue_unwinding jumps to the topmost handler that takes the exception, with the frames
  -- below it left: it ends the unwinding at a catch and keeps it up at a finally. Without such a
  -- handler it exits, with the stack as high as when the exception was raised.
  pub stack_continue_unwinding-handler :
      (s : State J A)
      → IsStack s
      → (handler s.exc_obj (frames s) ≡ none
          → stack_continue_unwinding s ≡ ok (exited (record s { stack_idx = s.stack_backup })))
        × ((h : Handler J A)
            → handler s.exc_obj (frames s) ≡ some h
            → (r : State J A) × (stack_continue_unwinding s ≡ ok (jumped r)) × Lands s h r)
  unfolding stack_continue_unwinding jump_to
  stack_continue_unwinding-handler s v =
      elim (unwinds s s.stack_idx (omega (arith, v.width, v.inside))) [
        | uncaught h run ↦ (λ e. run, λ h' e. absurd (cc))
        | handled idx j c lt h run ↦ (
          λ e. absurd (cc),
          λ h' e.
              let same = some-injective (sym h ∙ e) in
              (
                record s {
                  stack_idx = idx;
                  exc_jb = j;
                  stack_unwinding = if c then false else s.stack_unwinding;
                },
                run,
                record {
                  valid = record { width = v.width; inside = omega (arith, v.inside) };
                  frames_below = ap (λ t. t.below) same;
                  buffer = ap (λ t. t.buffer) same;
                  unwinding = ap (λ t. if t.catches then false else s.stack_unwinding) same;
                  object = refl;
                },
              ),
        )
      ]

  -- A raised exception goes to the topmost handler that takes its class, with the frames below that
  -- handler left; the stack is unwinding after it exactly at a finally. Without such a handler the
  -- program exits, and the stack that it displays is that of the raise.
  pub exc_raise_object-handler :
      (s : State J A) (obj : Klass)
      → IsStack s
      → (handler obj (frames s) ≡ none
          → (r : State J A) × (exc_raise_object s obj ≡ ok (exited r)) × (frames r ≡ frames s))
        × ((h : Handler J A)
            → handler obj (frames s) ≡ some h
            → (r : State J A) × (exc_raise_object s obj ≡ ok (jumped r))
              × IsStack r
              × (frames r ≡ h.below)
              × (r.exc_jb ≡ h.buffer)
              × (r.exc_obj ≡ obj)
              × (r.stack_unwinding ≡ not h.catches))
  unfolding exc_raise_object
  exc_raise_object-handler s obj v =
      let raised = record s { stack_backup = s.stack_idx; stack_unwinding = true; exc_obj = obj } in
      let valid : IsStack raised = record { width = v.width; inside = v.inside } in
      let h = stack_continue_unwinding-handler raised valid in
      (
        λ e. (record raised { stack_idx = s.stack_idx }, h.0 e, refl),
        λ h' e.
            let (r, run, l) = h.1 h' e in
            (r, run, l.valid, l.frames_below, l.buffer, l.object, l.unwinding ∙ if_not h'.catches),
      )
