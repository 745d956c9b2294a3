-- ===== src/Vm/Format/Rendering.antt =====
-- What `format_to_string` makes of the elements of a format.
use ripe.Prelude.{
  ℕ, zero, suc, ◌+◌, ◌-◌, ◌%◌, ◌^◌, ◌<◌, ◌≡◌, ◌⊎◌, inl, inr, refl, ap, ◌∙◌, arith, true, ltb,
  lt→ltb, Option, none, some, List, [], ◌∷◌, length, length-append, set, length-set, get_or,
  get_or-set, replicate, length-replicate, get_or-replicate, ◌==◌, ==_self, Bool-cases, ==→eq,
}
use ripe.Prelude.Int.{pos}
use ripe.Prelude.Outcome.{Outcome, ok, at, put, at-get_or, put-set, Returns, ◌>>=◌}
use ripe.Clib.StringBuf.Room.{mem_strdup-append}
use ripe.Vm.Format.Copying.{
  argument, render, AllUsable, entry, IsMemo, Ready, copy_pieces_lem, lacks-render,
}
use ripe.Vm.Format.{
  FormatElement, string, number, format_parse, string_of, measure, format_to_string, to_int,
}

module _ {ℓ} {V : Type ℓ} (texts : List (List ℕ)) (show : V → Outcome (List ℕ)) (values : List V)
    (shown : (n : ℕ) → n < length texts → (at values n >>= show) ≡ ok (get_or texts n []))
    (width : length values ≡ length texts) where
  -- what the first loop returns
  record Measured (es : List FormatElement) (strings : List (Option (List ℕ))) (out_len : ℕ)
      (r : List (Option (List ℕ)) × ℕ) : Type 0 where
    memo : IsMemo texts r.0
    ready : Ready texts r.0 es
    kept :
        (n : ℕ)
        → entry texts strings n ≡ some (get_or texts n [])
        → entry texts r.0 n ≡ some (get_or texts n [])
    total : r.1 ≡ out_len + length (render texts es)

  string_of_lem :
      (strings : List (Option (List ℕ))) (n : ℕ)
      → IsMemo texts strings
      → n < length texts
      → string_of show values strings n ≡ ok (get_or texts n [])
  unfolding string_of
  string_of_lem strings n m lt =
      let found = at-get_or strings n none (omega (arith, m.width)) in
      elim (m.right n lt) [
        | inl fresh ↦ rw (found, fresh) (shown n lt)
        | inr made ↦ rw (found, made) refl
      ]

  set-IsMemo :
      (strings : List (Option (List ℕ))) (n : ℕ)
      → IsMemo texts strings
      → n < length texts
      → IsMemo texts (set strings n (some (get_or texts n [])))
  set-IsMemo strings n m lt = record {
    width = omega (arith, m.width, length-set strings n (some (get_or texts n [])));
    right = λ j lt'.
        let e = get_or-set strings n j (some (get_or texts n [])) none (omega (arith, m.width)) in
        elim (Bool-cases (n == j)) [
          | inl same ↦ inr (e ∙ rw (same, ==→eq n j same) refl)
          | inr differs ↦ rw (e, differs) (m.right j lt')
        ];
  }

  -- the entry that is made, and those that were
  entry_set :
      (strings : List (Option (List ℕ))) (n j : ℕ)
      → IsMemo texts strings
      → n < length texts
      → (n ≡ j) ⊎ (entry texts strings j ≡ some (get_or texts j []))
      → entry texts (set strings n (some (get_or texts n []))) j ≡ some (get_or texts j [])
  entry_set strings n j m lt h =
      let e = get_or-set strings n j (some (get_or texts n [])) none (omega (arith, m.width)) in
      elim (Bool-cases (n == j)) [
        | inl same ↦ e ∙ rw (same, ==→eq n j same) refl
        | inr differs ↦ elim h [
          | inl eq ↦ absurd (ground (arith, ==_self j))
          | inr made ↦ e ∙ rw differs made
        ]
      ]

  number_step :
      (n : ℕ) (es : List FormatElement) (strings : List (Option (List ℕ))) (out_len : ℕ)
      {s : List ℕ}
      → ltb n (length values) ≡ true
      → to_int (suc n + 2 ^ 64 - 1) ≡ pos n
      → string_of show values strings n ≡ ok s
      → measure show values (number (suc n) ∷ es) strings out_len ≡ (
          put strings n (some s) >>= λ strings'.
          measure show values es strings' ((out_len + length s) % 2 ^ 64))
  unfolding measure
  number_step n es strings out_len inside here made = ground (arith, inside, here, made)

  -- one round of the first loop at a number
  measure_number :
      (n : ℕ) (es : List FormatElement) (strings : List (Option (List ℕ))) (out_len : ℕ)
      → IsMemo texts strings
      → n < length texts
      → length texts < 2 ^ 31
      → out_len + length (get_or texts n []) < 2 ^ 64
      → measure show values (number (suc n) ∷ es) strings out_len
        ≡ measure show values es
            (set strings n (some (get_or texts n [])))
            (out_len + length (get_or texts n []))
  measure_number n es strings out_len m lt few small =
      let s = get_or texts n [] in
      let size : (out_len + length s) % 2 ^ 64 ≡ out_len + length s = omega arith in
      let inside : ltb n (length values) ≡ true = lt→ltb n (length values) (omega arith) in
      number_step n es strings out_len inside (argument n (omega arith))
        (string_of_lem strings n m lt)
      ∙ rw (put-set strings n (some s) (omega (arith, m.width)), size) refl

  measure-Measured :
      (es : List FormatElement) (strings : List (Option (List ℕ))) (out_len : ℕ)
      → IsMemo texts strings
      → AllUsable texts es
      → length texts < 2 ^ 31
      → out_len + length (render texts es) < 2 ^ 64
      → Returns (measure show values es strings out_len) (Measured es strings out_len)
  unfolding measure
  measure-Measured [] strings out_len m u few small = (
    (strings, out_len),
    refl,
    record { memo = m; ready = tt; kept = λ n e. e; total = omega arith },
  )
  measure-Measured (string s ∷ es) strings out_len m u few small =
      let size : (out_len + length s) % 2 ^ 64 ≡ out_len + length s =
        omega (arith, length-append s (render texts es)) in
      let (r, run, q) =
        measure-Measured es strings (out_len + length s) m u.1 few
          (omega (arith, length-append s (render texts es))) in
      (
        r,
        ap (λ k. measure show values es strings k) size ∙ run,
        record {
          memo = q.memo;
          ready = q.ready;
          kept = q.kept;
          total = omega (arith, q.total, length-append s (render texts es));
        },
      )
  measure-Measured (number zero ∷ es) strings out_len m u few small = absurd u.0
  measure-Measured (number (suc n) ∷ es) strings out_len m u few small =
      let lt = u.0.0 in
      let s = get_or texts n [] in
      let strings' = set strings n (some s) in
      let all = length-append s (render texts es) in
      let (r, run, q) =
        measure-Measured es strings' (out_len + length s) (set-IsMemo strings n m lt) u.1 few
          (omega arith) in
      (
        r,
        measure_number n es strings out_len m lt few (omega arith) ∙ run,
        record {
          memo = q.memo;
          ready = (q.kept n (entry_set strings n n m lt (inl refl)), q.ready);
          kept = λ j e. q.kept j (entry_set strings n j m lt (inr e));
          total = omega (arith, q.total);
        },
      )

-- Where `format_parse` gives at least one element, each number of them names one of fewer than
-- 2 ^ 31 arguments, no text has a NUL and the texts fit into 2 ^ 64 bytes, `format_to_string` stays
-- inside its buffer and returns the texts of the elements, one after another, with an argument's text
-- as `show` gives it.
pub format_to_string_lem {ℓ} :
    {V : Type ℓ} (show : V → Outcome (List ℕ)) (junk : ℕ) (fstr : List ℕ) (values : List V)
    (texts : List (List ℕ)) (e : FormatElement) (es : List FormatElement)
    → ((n : ℕ) → n < length texts → (at values n >>= show) ≡ ok (get_or texts n []))
    → length values ≡ length texts
    → length texts < 2 ^ 31
    → format_parse fstr ≡ ok (some (e ∷ es))
    → AllUsable texts (e ∷ es)
    → length (render texts (e ∷ es)) + 1 < 2 ^ 64
    → format_to_string show junk fstr values ≡ ok (render texts (e ∷ es))
unfolding format_to_string
format_to_string_lem show junk fstr values texts e es shown width few parsed u small =
    let start : IsMemo texts (replicate (length values) none) = record {
      width = omega (arith, length-replicate {0} (length values) none);
      right = λ n lt. inl (get_or-replicate (length values) n none);
    } in
    let (r, run, q) =
      measure-Measured texts show values shown width (e ∷ es) (replicate (length values) none) 1
        start u few (omega arith) in
    let copied =
      copy_pieces_lem texts r.0 e es (replicate r.1 junk) (q.memo.width) u q.ready
        (omega (arith, length-replicate r.1 junk, q.total)) (omega arith) in
    let final = mem_strdup-append (render texts (e ∷ es)) [] (lacks-render texts (e ∷ es) u) in
    rw (parsed, run, copied, final) refl
