-- ===== src/Prelude/Assoc.antt =====
-- A map with byte-string keys (`sync.Map` here) as an association list. A key that is there is
-- replaced in place; the order of the entries stands for the unspecified order of a range loop.
use mathlib.Core.List.{List, [], ◌∷◌}
use mathlib.Core.Option.{Option, none, some}
use mathlib.Core.Bool.{Bool, true}
use mathlib.Core.Path.{◌≡◌, refl}
use Prim.Native.Nat.{ℕ, ◌+◌}
use native.Mathlib.Omega.{arith}
use go_pkicmp_ng.Prelude.Tests.{if◌then◌else◌}
use go_pkicmp_ng.Prelude.Lists.{length}
use go_pkicmp_ng.Prelude.ByteStrings.{Bytes, bytes_eq, bytes_eq_iff, bytes_eq_refl}

abbrev pub Assoc {ℓ} : Type ℓ → Type ℓ
Assoc V = List (Bytes × V)

module _ {ℓ} {V : Type ℓ} where
  unfoldable pub lookup : Bytes → Assoc V → Option V
  lookup k [] = none
  lookup k ((j, v) ∷ m) = if bytes_eq j k then some v else lookup k m

  unfoldable pub put : Bytes → V → Assoc V → Assoc V
  put k v [] = (k, v) ∷ []
  put k v ((j, w) ∷ m) = if bytes_eq j k then (j, v) ∷ m else (j, w) ∷ put k v m

  unfoldable pub remove : Bytes → Assoc V → Assoc V
  remove k [] = []
  remove k ((j, v) ∷ m) = if bytes_eq j k then m else (j, v) ∷ remove k m

  -- No key stands twice.
  abbrev pub Distinct : Assoc V → Type ℓ
  Distinct [] = Unit
  Distinct ((k, v) ∷ m) = (lookup k m ≡ none) × Distinct m

  -- How many values pass a test.
  unfoldable pub count_where : (V → Bool) → Assoc V → ℕ
  count_where p [] = 0
  count_where p ((k, v) ∷ m) = (if p v then 1 else 0) + count_where p m

  pub lookup-put :
      (k j : Bytes) (v : V) (m : Assoc V)
      → lookup j (put k v m) ≡ (if bytes_eq k j then some v else lookup j m)
  unfolding lookup put
  lookup-put k j v [] = refl
  lookup-put k j v ((i, w) ∷ m) = ground (
    arith,
    lookup-put k j v m,
    bytes_eq_iff i k,
    bytes_eq_iff i j,
    bytes_eq_iff k j,
    bytes_eq_refl k,
    bytes_eq_refl j,
  )

  pub lookup-remove :
      (k j : Bytes) (m : Assoc V)
      → Distinct m
      → lookup j (remove k m) ≡ (if bytes_eq k j then none else lookup j m)
  unfolding lookup remove
  lookup-remove k j [] d = ground arith
  lookup-remove k j ((i, w) ∷ m) d =
      ground (arith, lookup-remove k j m d.1, bytes_eq_iff i k, bytes_eq_iff i j, bytes_eq_iff k j)

  pub Distinct-put : (k : Bytes) (v : V) (m : Assoc V) → Distinct m → Distinct (put k v m)
  unfolding put lookup
  Distinct-put k v [] d = (refl, tt)
  Distinct-put k v ((j, w) ∷ m) d =
      ground (arith, lookup-put k j v m, Distinct-put k v m d.1, bytes_eq_iff j k, bytes_eq_iff k j)

  pub Distinct-remove : (k : Bytes) (m : Assoc V) → Distinct m → Distinct (remove k m)
  unfolding remove lookup
  Distinct-remove k [] d = tt
  Distinct-remove k ((j, w) ∷ m) d =
      ground (arith, lookup-remove k j m d.1, Distinct-remove k m d.1)

  pub count_where-put_new :
      (p : V → Bool) (k : Bytes) (v : V) (m : Assoc V)
      → lookup k m ≡ none
      → count_where p (put k v m) ≡ count_where p m + (if p v then 1 else 0)
  unfolding count_where put lookup
  count_where-put_new p k v [] h = omega arith
  count_where-put_new p k v ((j, w) ∷ m) h = ground (arith, count_where-put_new p k v m)

  pub count_where-put_old :
      (p : V → Bool) (k : Bytes) (v w : V) (m : Assoc V)
      → lookup k m ≡ some w
      → count_where p (put k v m) + (if p w then 1 else 0)
        ≡ count_where p m + (if p v then 1 else 0)
  unfolding count_where put lookup
  count_where-put_old p k v w [] h = ground arith
  count_where-put_old p k v w ((j, u) ∷ m) h = ground (arith, count_where-put_old p k v w m)

  pub count_where-remove :
      (p : V → Bool) (k : Bytes) (w : V) (m : Assoc V)
      → lookup k m ≡ some w
      → count_where p m ≡ count_where p (remove k m) + (if p w then 1 else 0)
  unfolding count_where remove lookup
  count_where-remove p k w [] h = ground arith
  count_where-remove p k w ((j, u) ∷ m) h = ground (arith, count_where-remove p k w m)

  pub length-eq-count_where : (m : Assoc V) → length m ≡ count_where (λ _. true) m
  unfolding count_where
  length-eq-count_where [] = refl
  length-eq-count_where ((k, v) ∷ m) = omega (arith, length-eq-count_where m)

pub ruleset assoc_laws = (lookup-put, lookup-remove)
