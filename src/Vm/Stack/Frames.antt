-- ===== src/Vm/Stack/Frames.antt =====
-- The stack as a list of frames, the top first: what pushing and popping do to that list.
use ripe.Prelude.{
  ℕ, zero, suc, ◌+◌, ◌≤◌, ◌<◌, ◌≡◌, refl, ap, ap₂, ◌∙◌, arith, List, [], ◌∷◌, length, set,
  length-set,
}
use ripe.Prelude.Outcome.{Outcome, ok, stop, out_of_bounds, at, put, put-set, Returns, ◌>>=◌}
use ripe.Vm.Stack.{
  stack_size, Element, unset, type_annot, type_catch_all, type_catch, type_finally, State,
  stack_push_catch_all, stack_push_catch, stack_push_finally, stack_annot_push,
}

pub data Frame {ℓ} (J A : Type ℓ) : Type ℓ where
  idle : Frame J A
  annot : A → Frame J A
  catch_all : J → Frame J A
  catch : ℕ → J → Frame J A
  finally : J → Frame J A

-- the four ways to push
pub data Push {ℓ} (A : Type ℓ) : Type ℓ where
  push_annot : A → Push A
  push_catch_all push_finally : Push A
  push_catch : ℕ → Push A

module _ {ℓ} {J A : Type ℓ} where
  abbrev pub frame : Element J A → Frame J A
  frame e = elim e.type [
    | unset ↦ idle
    | type_annot ↦ annot e.annotation
    | type_catch_all ↦ catch_all e.jb
    | type_catch ↦ catch e.exc_type e.jb
    | type_finally ↦ finally e.jb
  ]

  abbrev pub frame_at : List (Element J A) → ℕ → Frame J A
  frame_at [] i = idle
  frame_at (e ∷ es) zero = frame e
  frame_at (e ∷ es) (suc i) = frame_at es i

  abbrev pub frames_of : ℕ → List (Element J A) → List (Frame J A)
  frames_of zero es = []
  frames_of (suc n) es = frame_at es n ∷ frames_of n es

  abbrev pub frames : State J A → List (Frame J A)
  frames s = frames_of s.stack_idx s.stack

  pub record IsStack (s : State J A) : Type 0 where
    pub width : length s.stack ≡ stack_size
    pub inside : s.stack_idx ≤ stack_size

  pub element_at :
      (es : List (Element J A)) (i : ℕ)
      → i < length es
      → Returns (at es i) (λ e. frame_at es i ≡ frame e)
  unfolding at
  element_at [] i h = absurd (omega arith)
  element_at (e ∷ es) zero h = (e, refl, refl)
  element_at (e ∷ es) (suc i) h = element_at es i (omega arith)

  at-behind : (es : List (Element J A)) (i : ℕ) → length es ≤ i → at es i ≡ stop out_of_bounds
  unfolding at
  at-behind [] i h = refl
  at-behind (e ∷ es) zero h = absurd (omega arith)
  at-behind (e ∷ es) (suc i) h = at-behind es i (omega arith)

  frame_at-set :
      (es : List (Element J A)) (i : ℕ) (e : Element J A)
      → i < length es
      → frame_at (set es i e) i ≡ frame e
  frame_at-set [] i e h = absurd (omega arith)
  frame_at-set (x ∷ es) zero e h = refl
  frame_at-set (x ∷ es) (suc i) e h = frame_at-set es i e (omega arith)

  frame_at-below :
      (es : List (Element J A)) (i j : ℕ) (e : Element J A)
      → j < i
      → frame_at (set es i e) j ≡ frame_at es j
  frame_at-below [] i j e h = refl
  frame_at-below (x ∷ es) zero j e h = absurd (omega arith)
  frame_at-below (x ∷ es) (suc i) zero e h = refl
  frame_at-below (x ∷ es) (suc i) (suc j) e h = frame_at-below es i j e (omega arith)

  frames_of-set :
      (n i : ℕ) (es : List (Element J A)) (e : Element J A)
      → n ≤ i
      → frames_of n (set es i e) ≡ frames_of n es
  frames_of-set zero i es e h = refl
  frames_of-set (suc n) i es e h =
      ap₂ (λ f fs. f ∷ fs) (frame_at-below es i n e (omega arith))
        (frames_of-set n i es e (omega arith))

  -- `s` with one frame more on top
  pub record Pushed (f : Frame J A) (s r : State J A) : Type ℓ where
    pub valid : IsStack r
    pub top : frames r ≡ f ∷ frames s
    pub height : r.stack_idx ≡ suc s.stack_idx
    pub buffer : r.exc_jb ≡ s.exc_jb
    pub unwinding : r.stack_unwinding ≡ s.stack_unwinding

  push_element :
      (s : State J A) (e : Element J A)
      → IsStack s
      → s.stack_idx < stack_size
      → Pushed
          (frame e)
          s
          (record s { stack = set s.stack s.stack_idx e; stack_idx = s.stack_idx + 1 })
  push_element s e v room =
      let next : s.stack_idx + 1 ≡ suc s.stack_idx = omega arith in
      record {
        valid = record { width = length-set s.stack s.stack_idx e ∙ v.width; inside = omega arith };
        top =
            ap (λ n. frames_of n (set s.stack s.stack_idx e)) next
            ∙ ap₂ (λ f fs. f ∷ fs) (frame_at-set s.stack s.stack_idx e (omega (arith, v.width)))
                (frames_of-set s.stack_idx s.stack_idx s.stack e (omega arith));
        height = next;
        buffer = refl;
        unwinding = refl;
      }

  push_changed :
      (s : State J A) (change : Element J A → Element J A)
      → IsStack s
      → s.stack_idx < stack_size
      → Returns
          (do
            e ← at s.stack s.stack_idx
            st ← put s.stack s.stack_idx (change e)
            ok (record s { stack = st; stack_idx = s.stack_idx + 1 }))
          (λ r. (e : Element J A) × Pushed (frame (change e)) s r)
  push_changed s change v room =
      let (e, run, h) = element_at s.stack s.stack_idx (omega (arith, v.width)) in
      (
        record s { stack = set s.stack s.stack_idx (change e); stack_idx = s.stack_idx + 1 },
        rw (run, put-set s.stack s.stack_idx (change e) (omega (arith, v.width))) refl,
        (e, push_element s (change e) v room),
      )

  abbrev pub run_push : State J A → Push A → Outcome (State J A)
  run_push s (push_annot a) = stack_annot_push s a
  run_push s push_catch_all = stack_push_catch_all s
  run_push s push_finally = stack_push_finally s
  run_push s (push_catch k) = stack_push_catch s k

  abbrev pub pushed_frame : State J A → Push A → Frame J A
  pushed_frame s (push_annot a) = annot a
  pushed_frame s push_catch_all = catch_all s.exc_jb
  pushed_frame s push_finally = finally s.exc_jb
  pushed_frame s (push_catch k) = catch k s.exc_jb

  pub run_push-Pushed :
      (s : State J A) (p : Push A)
      → IsStack s
      → s.stack_idx < stack_size
      → Returns (run_push s p) (Pushed (pushed_frame s p) s)
  unfolding stack_annot_push stack_push_catch_all stack_push_finally stack_push_catch
  run_push-Pushed s (push_annot a) v room =
      let (r, run, (e, h)) =
        push_changed s (λ e. record e { type = type_annot; annotation = a }) v room in
      (r, run, h)
  run_push-Pushed s push_catch_all v room =
      let (r, run, (e, h)) =
        push_changed s (λ e. record e { type = type_catch_all; jb = s.exc_jb }) v room in
      (r, run, h)
  run_push-Pushed s push_finally v room =
      let (r, run, (e, h)) =
        push_changed s (λ e. record e { type = type_finally; jb = s.exc_jb }) v room in
      (r, run, h)
  run_push-Pushed s (push_catch k) v room =
      let (r, run, (e, h)) =
        push_changed s (λ e. record e { type = type_catch; exc_type = k; jb = s.exc_jb }) v room in
      (r, run, h)

  run_push-full :
      (s : State J A) (p : Push A)
      → IsStack s
      → s.stack_idx ≡ stack_size
      → run_push s p ≡ stop out_of_bounds
  unfolding stack_annot_push stack_push_catch_all stack_push_finally stack_push_catch
  run_push-full s (push_annot a) v e =
      rw (at-behind s.stack s.stack_idx (omega (arith, v.width))) refl
  run_push-full s push_catch_all v e =
      rw (at-behind s.stack s.stack_idx (omega (arith, v.width))) refl
  run_push-full s push_finally v e =
      rw (at-behind s.stack s.stack_idx (omega (arith, v.width))) refl
  run_push-full s (push_catch k) v e =
      rw (at-behind s.stack s.stack_idx (omega (arith, v.width))) refl

  -- Each of the four pushes on a stack that is not full returns a stack with the frame on top, which
  -- keeps the jump buffer of the moment; on a full stack each writes behind the array.
  pub push_lem :
      (s : State J A) (p : Push A)
      → IsStack s
      → (s.stack_idx < stack_size → Returns (run_push s p) (Pushed (pushed_frame s p) s))
        × (s.stack_idx ≡ stack_size → run_push s p ≡ stop out_of_bounds)
  push_lem s p v = (run_push-Pushed s p v, run_push-full s p v)
