-- ===== src/Vm/Stack/Calls.antt =====
-- What stack_annot_pop does to the frames that a call has left.
use ripe.Prelude.{
  ℕ, zero, suc, ◌+◌, ◌≤◌, ◌<◌, ◌≡◌, refl, sym, ap, ◌∙◌, arith, List, [], ◌∷◌, Option, none, some,
  length,
}
use ripe.Prelude.Outcome.{Outcome, ok, stop, assertion, at, Returns, ◌>>=◌}
use ripe.Vm.Stack.{
  stack_size, Element, ElementType, unset, type_annot, type_catch_all, type_catch, type_finally,
  State, annot_pop_from, stack_annot_pop,
}
use ripe.Vm.Stack.Frames.{
  Frame, idle, annot, catch_all, catch, finally, frame, frame_at, frames_of, frames, IsStack,
  element_at, Pushed, Push, push_annot, push_catch_all, push_catch, push_finally, run_push,
  pushed_frame, run_push-Pushed,
}

some-injective {ℓ} : {A : Type ℓ} {a b : A} → some a ≡ some b → a ≡ b
some-injective e = cc

-- handlers, without annotations
abbrev pub AllHandlers {ℓ} : {A : Type ℓ} → List (Push A) → Type 0
AllHandlers [] = Unit
AllHandlers (push_annot a ∷ ps) = ⊥
AllHandlers (push_catch_all ∷ ps) = AllHandlers ps
AllHandlers (push_finally ∷ ps) = AllHandlers ps
AllHandlers (push_catch k ∷ ps) = AllHandlers ps

module _ {ℓ} {J A : Type ℓ} where
  -- the frames below the topmost annotation
  abbrev pub below_annot : List (Frame J A) → Option (List (Frame J A))
  below_annot [] = none
  below_annot (annot a ∷ fs) = some fs
  below_annot (idle ∷ fs) = below_annot fs
  below_annot (catch_all j ∷ fs) = below_annot fs
  below_annot (catch k j ∷ fs) = below_annot fs
  below_annot (finally j ∷ fs) = below_annot fs

  -- what the loop of `stack_annot_pop` finds in the lowest `n` elements
  data Popped (n : ℕ) (es : List (Element J A)) : Type ℓ where
    missing :
        below_annot (frames_of n es) ≡ none → annot_pop_from es n ≡ stop assertion → Popped n es
    found :
        (idx : ℕ)
        → idx < n
        → below_annot (frames_of n es) ≡ some (frames_of idx es)
        → annot_pop_from es n ≡ ok idx
        → Popped n es

  skip :
      (n : ℕ) (es : List (Element J A))
      → below_annot (frames_of (suc n) es) ≡ below_annot (frames_of n es)
      → annot_pop_from es (suc n) ≡ annot_pop_from es n
      → Popped n es
      → Popped (suc n) es
  skip n es e e' (missing h run) = missing (e ∙ h) (e' ∙ run)
  skip n es e e' (found idx lt h run) = found idx (omega arith) (e ∙ h) (e' ∙ run)

  Popped-step :
      (n : ℕ) (es : List (Element J A)) (e : Element J A) (t : ElementType)
      → e.type ≡ t
      → at es n ≡ ok e
      → frame_at es n ≡ frame e
      → Popped n es
      → Popped (suc n) es
  unfolding annot_pop_from
  Popped-step n es e unset te run here p = skip n es (rw (here, te) refl) (rw (run, te) refl) p
  Popped-step n es e type_annot te run here p =
      found n (omega arith) (rw (here, te) refl) (rw (run, te) refl)
  Popped-step n es e type_catch_all te run here p =
      skip n es (rw (here, te) refl) (rw (run, te) refl) p
  Popped-step n es e type_catch te run here p = skip n es (rw (here, te) refl) (rw (run, te) refl) p
  Popped-step n es e type_finally te run here p =
      skip n es (rw (here, te) refl) (rw (run, te) refl) p

  popped : (n : ℕ) (es : List (Element J A)) → n ≤ length es → Popped n es
  unfolding annot_pop_from
  popped zero es h = missing refl refl
  popped (suc n) es h =
      let (e, run, here) = element_at es n (omega arith) in
      Popped-step n es e e.type refl run here (popped n es (omega arith))

  -- stack_annot_pop takes off the topmost annotation with everything above it; without an annotation
  -- on the stack its assertion fails.
  pub stack_annot_pop-frames :
      (s : State J A)
      → IsStack s
      → (below_annot (frames s) ≡ none → stack_annot_pop s ≡ stop assertion)
        × ((fs : List (Frame J A))
            → below_annot (frames s) ≡ some fs
            → Returns (stack_annot_pop s) (λ r. IsStack r × (frames r ≡ fs)))
  unfolding stack_annot_pop
  stack_annot_pop-frames s v =
      elim (popped s.stack_idx s.stack (omega (arith, v.width, v.inside))) [
        | missing h run ↦ (λ e. rw run refl, λ fs e. absurd (cc))
        | found idx lt h run ↦ (
          λ e. absurd (cc),
          λ fs e. (
            record s { stack_idx = idx },
            rw run refl,
            (
              record { width = v.width; inside = omega (arith, v.inside) },
              some-injective (sym h ∙ e),
            ),
          ),
        )
      ]

  abbrev pub run_pushes : State J A → List (Push A) → Outcome (State J A)
  run_pushes s [] = ok s
  run_pushes s (p ∷ ps) = run_push s p >>= λ r. run_pushes r ps

  above :
      (s r : State J A) (p : Push A) (ps : List (Push A))
      → AllHandlers (p ∷ ps)
      → Pushed (pushed_frame s p) s r
      → (below_annot (frames r) ≡ below_annot (frames s)) × AllHandlers ps
  above s r (push_annot a) ps h p = absurd h
  above s r push_catch_all ps h p = (ap below_annot p.top, h)
  above s r push_finally ps h p = (ap below_annot p.top, h)
  above s r (push_catch k) ps h p = (ap below_annot p.top, h)

  run_pushes-below :
      (s : State J A) (ps : List (Push A))
      → AllHandlers ps
      → IsStack s
      → s.stack_idx + length ps ≤ stack_size
      → Returns
          (run_pushes s ps)
          (λ r. IsStack r × (below_annot (frames r) ≡ below_annot (frames s)))
  run_pushes-below s [] h v room = (s, refl, (v, refl))
  run_pushes-below s (p ∷ ps) h v room =
      let (r, run, q) = run_push-Pushed s p v (omega arith) in
      let (same, h') = above s r p ps h q in
      let (t, run', (v', same')) = run_pushes-below r ps h' q.valid (omega (arith, q.height)) in
      (t, rw run run', (v', same' ∙ same))

  -- A call that pushes its annotation and then handlers, for which the stack has room, leaves with
  -- stack_annot_pop the frames that it found, also if it has popped none of the handlers.
  pub call-frames :
      (s : State J A) (a : A) (ps : List (Push A))
      → IsStack s
      → AllHandlers ps
      → s.stack_idx + 1 + length ps ≤ stack_size
      → Returns
          (run_pushes s (push_annot a ∷ ps) >>= stack_annot_pop)
          (λ r. IsStack r × (frames r ≡ frames s))
  call-frames s a ps v h room =
      let (r, run, q) = run_push-Pushed s (push_annot a) v (omega arith) in
      let (t, run', (v', same)) = run_pushes-below r ps h q.valid (omega (arith, q.height)) in
      let (u, run'', done) =
        (stack_annot_pop-frames t v').1 (frames s) (same ∙ ap below_annot q.top) in
      (u, rw (run, run') run'', done)
