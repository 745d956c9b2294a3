-- ===== src/Vm/HashTable/Update.antt =====
-- Writes to one bucket: what they keep of a well-formed table, and what they do to its map.
use ripe.Prelude.{
  ℕ, ◌<◌, ◌≡◌, ◌≢◌, sym, ◌∙◌, true, false, List, arith, ==→eq, ==_self, length, set, length-set,
  get_or, get_or-set, ℕ_discrete,
}
use ripe.Vm.Key.{Key}
use ripe.Vm.HashTable.{Bucket, empty, full}
use ripe.Clib.Probing.{probe, NoWrap}
use ripe.Vm.HashTable.Query.{bucket_at, key_at, IsReached, IsAbsent, IsTable}

-- an update that empties no bucket keeps every probe sequence
pub IsReached-mono :
    (n : ℕ) (bs bs' : List Bucket) (h place : ℕ)
    → ((i : ℕ) → bucket_at bs i ≢ empty → bucket_at bs' i ≢ empty)
    → IsReached n bs h place
    → IsReached n bs' h place
IsReached-mono n bs bs' h place keep (idx, lt, here, before) =
    (idx, lt, here, λ j l. keep (probe h n j) (before j l))

module _ {ℓ} {A : Type ℓ} where
  pub get_or-set_self :
      (xs : List A) (i : ℕ) (v d : A) → i < length xs → get_or (set xs i v) i d ≡ v
  get_or-set_self xs i v d lt = rw (get_or-set xs i i v d lt) (ground (arith, ==_self i))

  pub get_or-set_ne :
      (xs : List A) (i j : ℕ) (v d : A)
      → i < length xs
      → i ≢ j
      → get_or (set xs i v) j d ≡ get_or xs j d
  get_or-set_ne xs i j v d lt ne = rw (get_or-set xs i j v d lt) (ground (arith, ==→eq i j))

module _ {ℓ} {K : Type ℓ} ⦃key : Key K⦄ (n : ℕ) (bs : List Bucket) (ks : List K)
    (t : IsTable n bs ks) (place : ℕ) (lt : place < n) where
  abbrev filled : List Bucket
  filled = set bs place full

  pub bucket_self : (b : Bucket) → bucket_at (set bs place b) place ≡ b
  bucket_self b = get_or-set_self bs place b empty (omega (arith, t.width_buckets))

  pub bucket_ne : (b : Bucket) (i : ℕ) → place ≢ i → bucket_at (set bs place b) i ≡ bucket_at bs i
  bucket_ne b i ne = get_or-set_ne bs place i b empty (omega (arith, t.width_buckets)) ne

  pub key_self : (k : K) → key_at (set ks place k) place ≡ k
  key_self k = get_or-set_self ks place k key.nil (omega (arith, t.width_keys))

  pub key_ne : (k : K) (i : ℕ) → place ≢ i → key_at (set ks place k) i ≡ key_at ks i
  key_ne k i ne = get_or-set_ne ks place i k key.nil (omega (arith, t.width_keys)) ne

  pub not_emptied :
      (b : Bucket)
      → b ≢ empty
      → (i : ℕ) → bucket_at bs i ≢ empty
      → bucket_at (set bs place b) i ≢ empty
  not_emptied b ne i h = elim (ℕ_discrete place i) [
    | yes e ↦ rw (← e, bucket_self b) ne
    | no d ↦ rw (bucket_ne b i d) h
  ]

  module _ (k : K) (gone : IsAbsent n bs ks k) (way : IsReached n bs (key.hash k) place)
      (fits : NoWrap (key.hash k)) where
    insert-IsReached :
        (i : ℕ)
        → i < n
        → bucket_at filled i ≡ full
        → IsReached n filled (key.hash (key_at (set ks place k) i)) i
    insert-IsReached i l f = elim (ℕ_discrete place i) [
      | yes e ↦
          rw (← e, key_self k)
            (IsReached-mono n bs filled (key.hash k) place (not_emptied full (λ c. cc)) way)
      | no d ↦ rw (key_ne k i d) (
          IsReached-mono n bs filled (key.hash (key_at ks i)) i (not_emptied full (λ c. cc))
            (t.reached i l (rw (bucket_ne full i d) at f)))
    ]

    insert-safe :
        (i : ℕ) → i < n → bucket_at filled i ≡ full → NoWrap (key.hash (key_at (set ks place k) i))
    insert-safe i l f = elim (ℕ_discrete place i) [
      | yes e ↦ rw (← e, key_self k) fits
      | no d ↦ rw (key_ne k i d) (t.safe i l (rw (bucket_ne full i d) at f))
    ]

    -- another full bucket holds another key
    insert-apart :
        (j : ℕ)
        → j < n
        → bucket_at filled j ≡ full
        → place ≢ j
        → key.equal k (key_at (set ks place k) j) ≡ false
    insert-apart j l f d = rw (key_ne k j d) (gone j l (rw (bucket_ne full j d) at f))

    insert_unique :
        (i j : ℕ)
        → i < n
        → j < n
        → bucket_at filled i ≡ full
        → bucket_at filled j ≡ full
        → key.equal (key_at (set ks place k) i) (key_at (set ks place k) j) ≡ true
        → i ≡ j
    insert_unique i j li lj fi fj same = elim (ℕ_discrete place i) [
      | yes ei ↦ elim (ℕ_discrete place j) [
        | yes ej ↦ sym ei ∙ ej
        | no dj ↦
            let a = insert-apart j lj fj dj in
            let b : key.equal k (key_at (set ks place k) j) ≡ true =
              rw (← ei, key_self k) at same in
            cc
      ]
      | no di ↦ elim (ℕ_discrete place j) [
        | yes ej ↦
            let a = insert-apart i li fi di in
            let b = key.equal_symm _ _ (rw (← ej, key_self k) at same) in cc
        | no dj ↦
            t.unique i j li lj (rw (bucket_ne full i di) at fi) (rw (bucket_ne full j dj) at fj)
              (rw (key_ne k i di, key_ne k j dj) at same)
      ]
    ]

    pub insert-IsTable : IsTable n filled (set ks place k)
    insert-IsTable = record {
      width_buckets = length-set bs place full ∙ t.width_buckets;
      width_keys = length-set ks place k ∙ t.width_keys;
      prime = t.prime;
      least = t.least;
      most = t.most;
      reached = insert-IsReached;
      safe = insert-safe;
      unique = insert_unique;
    }
