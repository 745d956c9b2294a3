-- ===== src/Clib/Utf8/RoundTrip.antt =====
-- utf8_read on what utf8_write stores.
use ripe.Prelude.{
  ℕ, zero, suc, ◌+◌, ◌*◌, ◌/◌, ◌%◌, ◌≤◌, ◌<◌, ◌≡◌, refl, List, [], ◌∷◌, ◌++◌, arith, length, take,
  dec_lt, le→ltb, lt→ltb, le→leb, lt→leb, subst,
}
use ripe.Prelude.Bits.{bit_and_63}
use ripe.Clib.Utf8.{done, fail, limited, invalid, needs, read2, read3, read4, read, octets, write}
use ripe.Clib.Utf8.Digits.{
  Start2, Start3, Start4, Middle, middle_lem, start2_lem, start3_lem, start4_lem, ascii_lem,
  payload_y2, payload_y, payload_x3, payload_x, payload_w, join2, join3, join4,
}

-- `bs` is the encoding of `c`: it is read back, and no part of it is enough
pub record IsEncoding (c : ℕ) (bs : List ℕ) : Type 0 where
  pub reads : (rest : List ℕ) → read (bs ++ rest) ≡ done (c, rest)
  pub cut : (k : ℕ) → k < length bs → read (take k bs) ≡ fail limited

IsEncoding1 : (c : ℕ) → c < 128 → IsEncoding c (c ∷ [])
unfolding read
IsEncoding1 c lt =
    let (m, a) = ascii_lem c lt in
    record { reads = λ rest. rw (m, a); cut = λ k l. let e : k ≡ 0 = omega arith in rw e }

cut2 : (y b₁ b₂ k : ℕ) → Start2 y b₁ → k < 2 → read (take k (b₁ ∷ b₂ ∷ [])) ≡ fail limited
unfolding read read2
cut2 y b₁ b₂ zero s l = refl
cut2 y b₁ b₂ (suc zero) (m, a, t, p) l = rw (m, a, t)
cut2 y b₁ b₂ (suc (suc k)) s l = absurd (omega arith)

pub IsEncoding2 :
    (y z b₁ b₂ : ℕ)
    → y < 64
    → z < 64
    → Start2 y b₁
    → Middle z b₂
    → IsEncoding (y * 64 + z) (b₁ ∷ b₂ ∷ [])
unfolding read read2
IsEncoding2 y z b₁ b₂ ly lz (m, a, t, p) (n, q) = record {
  reads = λ rest. rw (m, a, t, n, p, q, join2 y z ly lz);
  cut = λ k. cut2 y b₁ b₂ k (m, a, t, p);
}

cut3 : (x b₁ b₂ b₃ k : ℕ) → Start3 x b₁ → k < 3 → read (take k (b₁ ∷ b₂ ∷ b₃ ∷ [])) ≡ fail limited
unfolding read read3
cut3 x b₁ b₂ b₃ zero s l = refl
cut3 x b₁ b₂ b₃ (suc zero) (m, a, t, u, p) l = rw (m, a, t, u)
cut3 x b₁ b₂ b₃ (suc (suc zero)) (m, a, t, u, p) l = rw (m, a, t, u)
cut3 x b₁ b₂ b₃ (suc (suc (suc k))) s l = absurd (omega arith)

IsEncoding3 :
    (x y z b₁ b₂ b₃ : ℕ)
    → x < 64
    → y < 64
    → z < 64
    → Start3 x b₁
    → Middle y b₂
    → Middle z b₃
    → IsEncoding (x * 4096 + y * 64 + z) (b₁ ∷ b₂ ∷ b₃ ∷ [])
unfolding read read3
IsEncoding3 x y z b₁ b₂ b₃ lx ly lz (m, a, t, u, p) (n, q) (o, r) = record {
  reads = λ rest. rw (m, a, t, u, n, o, p, q, r, join3 x y z lx ly lz);
  cut = λ k. cut3 x b₁ b₂ b₃ k (m, a, t, u, p);
}

cut4 :
    (w b₁ b₂ b₃ b₄ k : ℕ)
    → Start4 w b₁
    → k < 4
    → read (take k (b₁ ∷ b₂ ∷ b₃ ∷ b₄ ∷ [])) ≡ fail limited
unfolding read read4
cut4 w b₁ b₂ b₃ b₄ zero s l = refl
cut4 w b₁ b₂ b₃ b₄ (suc zero) (m, a, t, u, v, p) l = rw (m, a, t, u, v)
cut4 w b₁ b₂ b₃ b₄ (suc (suc zero)) (m, a, t, u, v, p) l = rw (m, a, t, u, v)
cut4 w b₁ b₂ b₃ b₄ (suc (suc (suc zero))) (m, a, t, u, v, p) l = rw (m, a, t, u, v)
cut4 w b₁ b₂ b₃ b₄ (suc (suc (suc (suc k)))) s l = absurd (omega arith)

pub IsEncoding4 :
    (w x y z b₁ b₂ b₃ b₄ : ℕ)
    → w < 8
    → x < 64
    → y < 64
    → z < 64
    → Start4 w b₁
    → Middle x b₂
    → Middle y b₃
    → Middle z b₄
    → IsEncoding (w * 262144 + x * 4096 + y * 64 + z) (b₁ ∷ b₂ ∷ b₃ ∷ b₄ ∷ [])
unfolding read read4
IsEncoding4 w x y z b₁ b₂ b₃ b₄ lw lx ly lz (m, a, t, u, v, p) (n, q) (o, r) (n', q') = record {
  reads = λ rest. rw (m, a, t, u, v, n, o, n', p, q, r, q', join4 w x y z lw lx ly lz);
  cut = λ k. cut4 w b₁ b₂ b₃ b₄ k (m, a, t, u, v, p);
}

at_value : (c d : ℕ) (bs : List ℕ) → d ≡ c → IsEncoding d bs → IsEncoding c bs
at_value c d bs e h = subst (λ t. IsEncoding t bs) e h

octets2 : (c : ℕ) → c < 2048 → IsEncoding c (octets 2 c)
unfolding octets
octets2 c hi =
    rw (payload_y2, bit_and_63)
      (at_value c (c / 64 % 32 * 64 + c % 64) _ (omega arith) (
        IsEncoding2 (c / 64 % 32) (c % 64) _ _ (omega arith) (omega arith)
          (start2_lem (c / 64 % 32) (omega arith)) (middle_lem (c % 64) (omega arith))))

octets3 : (c : ℕ) → c < 65536 → IsEncoding c (octets 3 c)
unfolding octets
octets3 c hi =
    rw (payload_x3, payload_y, bit_and_63)
      (at_value c (c / 4096 % 16 * 4096 + c / 64 % 64 * 64 + c % 64) _ (omega arith) (
        IsEncoding3 (c / 4096 % 16) (c / 64 % 64) (c % 64) _ _ _ (omega arith) (omega arith)
          (omega arith) (start3_lem (c / 4096 % 16) (omega arith))
          (middle_lem (c / 64 % 64) (omega arith)) (middle_lem (c % 64) (omega arith))))

octets4 : (c : ℕ) → c < 2097152 → IsEncoding c (octets 4 c)
unfolding octets
octets4 c hi =
    rw (payload_w, payload_x, payload_y, bit_and_63)
      (at_value c (c / 262144 % 8 * 262144 + c / 4096 % 64 * 4096 + c / 64 % 64 * 64 + c % 64) _
        (omega arith)
        (IsEncoding4 (c / 262144 % 8) (c / 4096 % 64) (c / 64 % 64) (c % 64) _ _ _ _ (omega arith)
          (omega arith) (omega arith) (omega arith) (start4_lem (c / 262144 % 8) (omega arith))
          (middle_lem (c / 4096 % 64) (omega arith)) (middle_lem (c / 64 % 64) (omega arith))
          (middle_lem (c % 64) (omega arith))))

octets1 : (c : ℕ) → c < 128 → IsEncoding c (octets 1 c)
unfolding octets
octets1 c lt = let e : c % 256 ≡ c = omega arith in rw e (IsEncoding1 c lt)

length-octets : (c : ℕ) → length (octets (needs c) c) ≡ needs c
unfolding octets needs
length-octets c = ground arith

octets-IsEncoding : (c : ℕ) → c ≤ 0x10FFFF → IsEncoding c (octets (needs c) c)
unfolding needs
octets-IsEncoding c le = elim (dec_lt c 128) [
  | yes l ↦ rw (le→leb c 127 (omega arith)) (octets1 c l)
  | no g ↦ elim (dec_lt c 2048) [
    | yes l ↦ rw (lt→leb c 127 (omega arith), le→leb c 2047 (omega arith)) (octets2 c l)
    | no g' ↦ elim (dec_lt c 65536) [
      | yes l ↦
          rw (lt→leb c 127 (omega arith), lt→leb c 2047 (omega arith), le→leb c 65535 (omega arith))
            (octets3 c l)
      | no g'' ↦
          rw (lt→leb c 127 (omega arith), lt→leb c 2047 (omega arith), lt→leb c 65535 (omega arith))
            (octets4 c (omega arith))
    ]
  ]
]

-- utf8_write refuses a character above 0x10FFFF as invalid, and any other as limited exactly where
-- it needs more octets than there is room for; else it stores as many as it needs, from which
-- utf8_read takes the character back, whatever follows, and of which no shorter part is enough.
pub write-read :
    (room c : ℕ)
    → (0x10FFFF < c → write room c ≡ fail invalid)
      × (c ≤ 0x10FFFF → room < needs c → write room c ≡ fail limited)
      × (c ≤ 0x10FFFF
          → needs c ≤ room
          → (bs : List ℕ) × (write room c ≡ done bs)
            × (length bs ≡ needs c)
            × ((rest : List ℕ) → read (bs ++ rest) ≡ done (c, rest))
            × ((k : ℕ) → k < needs c → read (take k bs) ≡ fail limited))
unfolding write
write-read room c = (
  λ hi. rw (lt→leb c 0x10FFFF hi),
  λ le few. rw (le→leb c 0x10FFFF le, lt→ltb room (needs c) few),
  λ le enough.
      let h = octets-IsEncoding c le in
      (
        octets (needs c) c,
        rw (le→leb c 0x10FFFF le, le→ltb room (needs c) enough),
        length-octets c,
        h.reads,
        λ k l. h.cut k (omega (arith, length-octets c)),
      ),
)
