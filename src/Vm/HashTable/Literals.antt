-- ===== src/Vm/HashTable/Literals.antt =====
-- The literals of maps and sets: ht_new_map and ht_new_set of vm/builtin/HashTable.c, whose variadic
-- arguments are a list.
use ripe.Prelude.{
  ℕ, ◌+◌, ◌*◌, ◌<◌, ◌≤◌, ◌≡◌, refl, ◌∙◌, Bool, true, false, ◌||◌, Option, none, some, is_some, List,
  [], ◌∷◌, length, arith, if◌then◌else◌, ap,
}
use ripe.Prelude.Int.{pos}
use ripe.Prelude.Outcome.{Outcome, ok, ◌>>=◌, Returns}
use ripe.Vm.Key.{Key}
use ripe.Vm.HashTable.{HashTable, ht_init2, ht_set, ht_set2}
use ripe.Clib.Probing.{NoWrap}
use ripe.Vm.HashTable.View.{view, member}
use ripe.Vm.HashTable.Methods.{IsValid, ht_init2-IsValid, ht_init2-member}
use ripe.Vm.HashTable.Writes.{ht_set2-view}
use ripe.Vm.HashTable.Members.{ht_set-member}

grown : (b : Bool) (n r : ℕ) → r ≡ (if b then n else n + 1) → r ≤ n + 1
grown true n r e = omega arith
grown false n r e = omega arith

module _ {ℓ} {K : Type ℓ} ⦃key : Key K⦄ where
  -- the loop of `ht_new_map`
  unfoldable pub set_pairs : List (K × K) → HashTable K → Outcome (HashTable K)
  set_pairs [] ht = ok ht
  set_pairs ((k, v) ∷ pairs) ht = ht_set2 ht k v >>= set_pairs pairs

  unfoldable pub ht_new_map : List (K × K) → Outcome (HashTable K)
  ht_new_map pairs = ht_init2 (pos (length pairs)) >>= set_pairs pairs

  -- the loop of `ht_new_set`
  unfoldable pub set_keys : List K → HashTable K → Outcome (HashTable K)
  set_keys [] ht = ok ht
  set_keys (k ∷ keys) ht = ht_set ht k >>= set_keys keys

  unfoldable pub ht_new_set : List K → Outcome (HashTable K)
  ht_new_set keys = ht_init2 (pos (length keys)) >>= set_keys keys

  abbrev pub AllFit : List K → Type 0
  AllFit [] = Unit
  AllFit (k ∷ keys) = NoWrap (key.hash k) × AllFit keys

  abbrev pub PairsFit : List (K × K) → Type 0
  PairsFit [] = Unit
  PairsFit (p ∷ pairs) = NoWrap (key.hash p.0) × PairsFit pairs

  -- the value of the last pair whose key is equal to `q`, or else `start`
  abbrev pub last_value : List (K × K) → Option K → K → Option K
  last_value [] start q = start
  last_value ((k, v) ∷ pairs) start q = last_value pairs (if key.equal q k then some v else start) q

  abbrev pub any_equal : List K → Bool → K → Bool
  any_equal [] start q = start
  any_equal (k ∷ keys) start q = any_equal keys (key.equal q k || start) q

  set_pairs-view :
      (pairs : List (K × K)) (ht : HashTable K)
      → PairsFit pairs
      → IsValid true ht
      → 2 * (ht.size + length pairs) < 536870909
      → Returns
          (set_pairs pairs ht)
          (λ r. IsValid true r × ((q : K) → view r q ≡ last_value pairs (view ht q) q))
  unfolding set_pairs
  set_pairs-view [] ht fit v room = (ht, refl, (v, λ q. refl))
  set_pairs-view ((k, w) ∷ pairs) ht (fit, fits) v room =
      let (r, run, (v', size, here)) = ht_set2-view ht k w v fit (omega arith) in
      let (t, run', (v'', all)) =
        set_pairs-view pairs r fits v' (omega (arith, grown _ ht.size r.size size)) in
      (t, rw run run', (v'', λ q. all q ∙ ap (λ o. last_value pairs o q) (here q)))

  set_keys-member :
      (keys : List K) (ht : HashTable K)
      → AllFit keys
      → IsValid false ht
      → 2 * (ht.size + length keys) < 536870909
      → Returns (set_keys keys ht) (λ r.
        IsValid false r
        × ((q : K) → is_some (member r q) ≡ any_equal keys (is_some (member ht q)) q))
  unfolding set_keys
  set_keys-member [] ht fit v room = (ht, refl, (v, λ q. refl))
  set_keys-member (k ∷ keys) ht (fit, fits) v room =
      let (r, run, (v', size, here)) = ht_set-member ht k v fit (omega arith) in
      let (t, run', (v'', all)) =
        set_keys-member keys r fits v' (omega (arith, grown _ ht.size r.size size)) in
      (t, rw run run', (v'', λ q. all q ∙ ap (λ b. any_equal keys b q) (here q)))

  -- For fewer than 268435455 pairs whose keys' probes do not wrap, ht_new_map returns a well-formed
  -- map, which holds under each key the value of the last pair with an equal key, and nothing if
  -- there is no such pair.
  pub ht_new_map-view :
      (pairs : List (K × K))
      → PairsFit pairs
      → length pairs < 268435455
      → Returns
          (ht_new_map pairs)
          (λ r. IsValid true r × ((q : K) → view r q ≡ last_value pairs none q))
  unfolding ht_new_map
  ht_new_map-view pairs fit few =
      let (ht, run, (v, size, nothing)) = ht_init2-IsValid (pos (length pairs)) (omega arith) in
      let (r, run', (v', all)) = set_pairs-view pairs ht fit v (omega arith) in
      (r, rw run run', (v', λ q. all q ∙ ap (λ o. last_value pairs o q) (nothing q)))

  -- For fewer than 268435455 elements whose probes do not wrap, ht_new_set returns a well-formed set,
  -- which has an element equal to a key exactly if one of the given elements is equal to it.
  pub ht_new_set-member :
      (keys : List K)
      → AllFit keys
      → length keys < 268435455
      → Returns
          (ht_new_set keys)
          (λ r. IsValid false r × ((q : K) → is_some (member r q) ≡ any_equal keys false q))
  unfolding ht_new_set
  ht_new_set-member keys fit few =
      let (ht, run, (v, size, nothing)) = ht_init2-member (pos (length keys)) (omega arith) in
      let (r, run', (v', all)) = set_keys-member keys ht fit v (omega arith) in
      (r, rw run run', (v', λ q. all q ∙ ap (λ o. any_equal keys (is_some o) q) (nothing q)))
