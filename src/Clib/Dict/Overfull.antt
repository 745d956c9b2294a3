-- ===== src/Clib/Dict/Overfull.antt =====
-- A key that is set again and again in a new Dict.
use ripe.Prelude.{
  ℕ, ◌+◌, ◌*◌, ◌%◌, ◌^◌, ◌<◌, ◌≡◌, refl, arith, false, leb, none, some, get_or-replicate, replicate,
}
use ripe.Prelude.Outcome.{ok, stop, assertion, Returns, Returns_bind, ◌>>=◌}
use ripe.Clib.Primes.{map_prime}
use ripe.Clib.Probing.{NoWrap}
use ripe.Clib.Dict.Key.{DictKey}
use ripe.Clib.Dict.{
  bucket_empty, Dict, set_bucket, find_from, dict_query, set_again, dict_expand, dict_set,
  dict_init,
}
use ripe.Clib.Dict.Repetition.{place, own-entry, Repeated, read, set_from-Repeated, set_from-stop}

lt→leb_false : (a b : ℕ) → b < a → leb a b ≡ false
lt→leb_false a b lt = ground arith

module _ {ℓ κ} {K : Type ℓ} {V : Type κ} ⦃key : DictKey K⦄ (k : K)
    (fits : NoWrap (key.hash_func k)) where
  -- a Dict of 13 buckets in which only the key was set
  record IsRepeated (m n : ℕ) (d : Dict K V) : Type (ℓ ⊔ κ) where
    counted : d.size ≡ n
    small : d.alloc_size ≡ 13
    shape : Repeated k d.buckets m

  not_expanded : (d : Dict K V) (m n : ℕ) → IsRepeated m n d → n < 5 → dict_expand d ≡ ok d
  unfolding dict_expand
  not_expanded d m n h few =
      let roomy : leb d.alloc_size ((d.size + 1) * 2 % 2 ^ 64) ≡ false =
        lt→leb_false _ _ (omega (arith, h.small, h.counted)) in
      rw (roomy, dict_expand) refl

  query_unset : (d : Dict K V) (n : ℕ) → IsRepeated 0 n d → dict_query d k ≡ ok none
  unfolding dict_query find_from
  query_unset d n h =
      let empty = h.shape.free (place k 0) (λ i early. absurd (omega arith)) in
      rw (h.small, read k d.buckets 0 h.shape.width, empty) refl

  query_set :
      (d : Dict K V) (m n : ℕ) → IsRepeated m n d → 0 < m → (w : V) × (dict_query d k ≡ ok (some w))
  unfolding dict_query find_from
  query_set d m n h some_set =
      let (l, w, entry, own) = own-entry k _ (h.shape.own 0 some_set) in
      (w, rw (h.small, read k d.buckets 0 h.shape.width, entry) (rw own refl))

  set_once : (d : Dict K V) (v : V) → IsRepeated 0 0 d → Returns (dict_set d k v) (IsRepeated 1 1)
  unfolding dict_set set_again set_bucket
  set_once d v h =
      let (bs, run, h') =
        set_from-Repeated k fits d.buckets v 13 0 0 h.shape (omega arith) (omega arith)
          (omega arith) in
      (
        record d { size = (d.size + 1) % 2 ^ 64; buckets = bs },
        rw (query_unset d 0 h, not_expanded d 0 0 h (omega arith), h.small, run) refl,
        record { counted = omega (arith, h.counted); small = h.small; shape = h' },
      )

  set_twice :
      (d : Dict K V) (v : V) (m n : ℕ)
      → IsRepeated m n d
      → 0 < m
      → m < 6
      → n < 5
      → Returns (dict_set d k v) (IsRepeated (m + 2) (n + 1))
  unfolding dict_set set_again set_bucket
  set_twice d v m n h some_set few short =
      let (w, known) = query_set d m n h some_set in
      let (bs, run, shape) =
        set_from-Repeated k fits d.buckets v 13 0 m h.shape (omega arith) (omega arith)
          (omega arith) in
      let d1 : Dict K V = record d { buckets = bs } in
      let h1 : IsRepeated (m + 1) n d1 = record {
        counted = h.counted;
        small = h.small;
        shape = shape;
      } in
      let (bs', run', shape') =
        set_from-Repeated k fits bs v 13 0 (m + 1) shape (omega arith) (omega arith)
          (omega arith) in
      let two : m + 1 + 1 ≡ m + 2 = omega arith in
      (
        record d { size = (d.size + 1) % 2 ^ 64; buckets = bs' },
        rw (known, h.small, run)
            (rw (rw h.small at (not_expanded d1 (m + 1) n h1 short)) (rw run' refl)),
        record { counted = omega (arith, h.counted); small = h.small; shape = rw two at shape' },
      )

  set_last : (d : Dict K V) (v : V) (n : ℕ) → IsRepeated 7 n d → dict_set d k v ≡ stop assertion
  unfolding dict_set set_again set_bucket
  set_last d v n h =
      let (w, known) = query_set d 7 n h (omega arith) in
      rw (known, h.small, set_from-stop k fits d.buckets v 13 0 h.shape (omega arith)) refl

  new-IsRepeated : Returns dict_init (IsRepeated 0 0)
  unfolding dict_init map_prime
  new-IsRepeated = (
    record { size = 0; alloc_size = 13; buckets = replicate 13 bucket_empty },
    refl,
    record {
      counted = refl;
      small = refl;
      shape = record {
        width = refl;
        own = λ i early. absurd (omega arith);
        free = λ j apart. get_or-replicate 13 j bucket_empty;
      };
    },
  )

  -- In a build with assertions and a new Dict, the fifth dict_set of one key whose probes do not wrap
  -- fails its assertion, whatever the values: the key has filled the seven buckets that its probes
  -- reach. The four before it return.
  pub dict_set-again :
      (v1 v2 v3 v4 v5 : V)
      → Returns
          (dict_init
            >>= (λ d. dict_set d k v1)
            >>= (λ d. dict_set d k v2)
            >>= (λ d. dict_set d k v3)
            >>= (λ d. dict_set d k v4))
          (λ d. (d.size ≡ 4) × (dict_set d k v5 ≡ stop assertion))
  dict_set-again v1 v2 v3 v4 v5 =
      let set1 =
        Returns_bind dict_init (λ d. dict_set d k v1) new-IsRepeated (λ d h. set_once d v1 h) in
      let set2 =
        Returns_bind _ (λ d. dict_set d k v2) set1
          (λ d h. set_twice d v2 1 1 h (omega arith) (omega arith) (omega arith)) in
      let set3 =
        Returns_bind _ (λ d. dict_set d k v3) set2
          (λ d h. set_twice d v3 3 2 h (omega arith) (omega arith) (omega arith)) in
      let (d, run, h) =
        Returns_bind _ (λ d. dict_set d k v4) set3
          (λ d h. set_twice d v4 5 3 h (omega arith) (omega arith) (omega arith)) in
      (d, run, (h.counted, set_last d v5 4 h))
