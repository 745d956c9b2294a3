-- ===== src/Vm/HashTable/View.antt =====
-- The abstract map of a table: a scan of all buckets, which knows nothing of hashes or probes.
use ripe.Prelude.{
  ℕ, zero, suc, ◌+◌, ◌≤◌, ◌<◌, ◌≡◌, ap, ◌≢◌, inl, inr, sym, ◌∙◌, true, false, ◌&&◌, Option, none,
  some, List, [], arith, if◌then◌else◌, Bool-cases, Option-cases, ℕ_discrete,
}
use ripe.Vm.Key.{Key}
use ripe.Vm.HashTable.{HashTable, Bucket, full, is_full}
use ripe.Vm.HashTable.Query.{bucket_at, key_at, IsAbsent, IsTable}

pub is_full-eq_true : (b : Bucket) → is_full b ≡ true → b ≡ full
is_full-eq_true b h = ground arith

pub is_full-eq_false : (b : Bucket) → is_full b ≡ false → b ≢ full
is_full-eq_false b h = ground arith

pub is_full-ne : (b : Bucket) → b ≢ full → is_full b ≡ false
is_full-ne b h = ground arith

-- the contents of an array that may be NULL
abbrev pub listed {ℓ} : {A : Type ℓ} → Option (List A) → List A
listed none = []
listed (some xs) = xs

module _ {ℓ} {K : Type ℓ} ⦃key : Key K⦄ where
  -- the first of the `r` buckets from `i` on that holds `q`
  unfoldable pub scan : List Bucket → List K → List K → K → ℕ → ℕ → Option K
  scan bs ks vs q i zero = none
  scan bs ks vs q i (suc r) =
      if is_full (bucket_at bs i) && key.equal q (key_at ks i)
      then some (key_at vs i)
      else scan bs ks vs q (i + 1) r

  -- what a map holds under `q`
  unfoldable pub view : HashTable K → K → Option K
  view ht q = scan ht.buckets ht.keys (listed ht.values) q 0 ht.alloc_size

  -- the element of a set that is equal to `q`
  unfoldable pub member : HashTable K → K → Option K
  member ht q = scan ht.buckets ht.keys ht.keys q 0 ht.alloc_size

  -- bucket `j` holds `q` with the value `v`
  pub record HoldsAt (n : ℕ) (bs : List Bucket) (ks vs : List K) (q v : K) (j : ℕ) : Type ℓ where
    pub below : j < n
    pub filled : bucket_at bs j ≡ full
    pub same : key.equal q (key_at ks j) ≡ true
    pub value : key_at vs j ≡ v

  abbrev pub Holds : ℕ → List Bucket → List K → List K → K → K → Type ℓ
  Holds n bs ks vs q v = (j : ℕ) × HoldsAt n bs ks vs q v j

  -- only the value at `j` matters
  pub HoldsAt-value :
      (n : ℕ) (bs : List Bucket) (ks vs vs' : List K) (q v : K) (j : ℕ)
      → key_at vs' j ≡ key_at vs j
      → HoldsAt n bs ks vs q v j
      → HoldsAt n bs ks vs' q v j
  HoldsAt-value n bs ks vs vs' q v j e h = record {
    below = h.below;
    filled = h.filled;
    same = h.same;
    value = e ∙ h.value;
  }

  scan-Holds :
      (n : ℕ) (bs : List Bucket) (ks vs : List K) (q v : K) (i r : ℕ)
      → i + r ≤ n
      → scan bs ks vs q i r ≡ some v
      → Holds n bs ks vs q v
  unfolding scan
  scan-Holds n bs ks vs q v i zero le e = cc
  scan-Holds n bs ks vs q v i (suc r) le e =
      elim (Bool-cases (is_full (bucket_at bs i) && key.equal q (key_at ks i))) [
        | inl t ↦ (
          i,
          record {
            below = omega arith;
            filled = ground arith;
            same = ground arith;
            value = ground arith;
          },
        )
        | inr f ↦ scan-Holds n bs ks vs q v (i + 1) r (omega arith) (rw f at e)
      ]

  scan-none :
      (bs : List Bucket) (ks vs : List K) (q : K) (i r j : ℕ)
      → scan bs ks vs q i r ≡ none
      → i ≤ j
      → j < i + r
      → bucket_at bs j ≡ full
      → key.equal q (key_at ks j) ≡ false
  unfolding scan
  scan-none bs ks vs q i zero j e lo hi f = absurd (omega arith)
  scan-none bs ks vs q i (suc r) j e lo hi f = elim (ℕ_discrete i j) [
    | yes same ↦
        let f' : bucket_at bs i ≡ full = rw same f in
        let e' : key.equal q (key_at ks i) ≡ false = ground arith in rw (← same) e'
    | no other ↦
        let rest : scan bs ks vs q (i + 1) r ≡ none = ground arith in
        scan-none bs ks vs q (i + 1) r j rest (omega arith) (omega arith) f
  ]

  module _ (n : ℕ) (bs : List Bucket) (ks : List K) (t : IsTable n bs ks) where
    pub Holds-unique :
        (vs : List K) (q v w : K) → Holds n bs ks vs q v → Holds n bs ks vs q w → v ≡ w
    Holds-unique vs q v w (i, a) (j, b) =
        let both = key.equal_trans _ _ _ (key.equal_symm q (key_at ks i) a.same) b.same in
        let same : i ≡ j = t.unique i j a.below b.below a.filled b.filled both in
        sym a.value ∙ rw same b.value

    -- the scan finds what a bucket holds, whichever it is
    pub scan_iff : (vs : List K) (q v : K) → Holds n bs ks vs q v → scan bs ks vs q 0 n ≡ some v
    scan_iff vs q v h = elim (Option-cases (scan bs ks vs q 0 n)) [
      | inl e ↦
          let no_entry =
            scan-none bs ks vs q 0 n h.0 e (omega arith) (omega (arith, h.1.below)) h.1.filled in
          let entry = h.1.same in cc
      | inr (w, e) ↦
          rw e (ap some (Holds-unique vs q w v (scan-Holds n bs ks vs q w 0 n (omega arith) e) h))
    ]

    pub scan-absent : (vs : List K) (q : K) → IsAbsent n bs ks q → scan bs ks vs q 0 n ≡ none
    scan-absent vs q gone = elim (Option-cases (scan bs ks vs q 0 n)) [
      | inl e ↦ e
      | inr (w, e) ↦
          let (j, h) = scan-Holds n bs ks vs q w 0 n (omega arith) e in
          let differs = gone j h.below h.filled in let same = h.same in cc
    ]

  -- Two tables that hold the same values under `q` look the same at `q`.
  pub scan_ext :
      (n n' : ℕ) (bs bs' : List Bucket) (ks ks' vs vs' : List K) (q : K)
      → IsTable n bs ks
      → IsTable n' bs' ks'
      → ((v : K) → Holds n bs ks vs q v → Holds n' bs' ks' vs' q v)
      → ((v : K) → Holds n' bs' ks' vs' q v → Holds n bs ks vs q v)
      → scan bs' ks' vs' q 0 n' ≡ scan bs ks vs q 0 n
  scan_ext n n' bs bs' ks ks' vs vs' q t t' there back = elim (Option-cases (scan bs ks vs q 0 n)) [
    | inr (v, e) ↦
        rw e
          (scan_iff n' bs' ks' t' vs' q v (there v (scan-Holds n bs ks vs q v 0 n (omega arith) e)))
    | inl e ↦ elim (Option-cases (scan bs' ks' vs' q 0 n')) [
      | inl e' ↦ e' ∙ sym e
      | inr (w, e') ↦
          let found =
            scan_iff n bs ks t vs q w
              (back w (scan-Holds n' bs' ks' vs' q w 0 n' (omega arith) e')) in
          cc
    ]
  ]
