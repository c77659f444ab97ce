-- ===== src/Common/Assoc.antt =====
-- A Go map as an association list without repeated keys. Go's iteration order is not fixed, so no
-- result below rests on the order of the list.
use declarion_sdk_go.Common.Tests.{if◌then◌else◌}
use declarion_sdk_go.Common.Lists.{length}
use declarion_sdk_go.Common.Keys.{Eq, ◌==◌, ==_iff}
use Prim.Native.Nat.{◌≤◌}
use mathlib.Core.Path.{◌≡◌, refl}
use mathlib.Core.Bool.{Bool}
use mathlib.Core.Option.{Option, none, some}
use mathlib.Core.List.{List, [], ◌∷◌, ◌++◌}
use native.Mathlib.Omega.{arith}

abbrev pub Assoc {ℓ} : Type ℓ → Type ℓ → Type ℓ
Assoc K V = List (K × V)

module _ {ℓ} {K V : Type ℓ} ⦃e : Eq K⦄ where
  -- `m[k]` with its second result
  unfoldable pub lookup : K → Assoc K V → Option V
  lookup k [] = none
  lookup k ((j, v) ∷ m) = if j == k then some v else lookup k m

  -- `m[k] = v`
  unfoldable pub insert : K → V → Assoc K V → Assoc K V
  insert k v [] = (k, v) ∷ []
  insert k v ((j, w) ∷ m) = if j == k then (k, v) ∷ m else (j, w) ∷ insert k v m

  -- the entries that a predicate keeps, as a loop of `delete` over the map leaves them
  unfoldable pub retain : (K → V → Bool) → Assoc K V → Assoc K V
  retain p [] = []
  retain p ((j, w) ∷ m) = if p j w then (j, w) ∷ retain p m else retain p m

  -- no key stands twice
  abbrev pub IsMap : Assoc K V → Type ℓ
  IsMap [] = Unit
  IsMap ((j, w) ∷ m) = (lookup j m ≡ none) × IsMap m

  pub lookup-insert :
      (put_key read_key : K) (new : V) (old : Assoc K V)
      → lookup read_key (insert put_key new old)
        ≡ (if put_key == read_key then some new else lookup read_key old)
  unfolding lookup insert
  lookup-insert put_key read_key new [] = refl
  lookup-insert put_key read_key new ((i, w) ∷ old) = ground (
    arith,
    ==_iff put_key read_key,
    ==_iff i put_key,
    ==_iff i read_key,
    lookup-insert put_key read_key new old,
  )

  pub insert-IsMap : (k : K) (v : V) (m : Assoc K V) → IsMap m → IsMap (insert k v m)
  unfolding lookup insert
  insert-IsMap k v [] h = (refl, tt)
  insert-IsMap k v ((i, w) ∷ m) h =
      ground (arith, ==_iff i k, ==_iff k i, insert-IsMap k v m h.1, lookup-insert k i v m)

  pub lookup-retain :
      (p : K → V → Bool) (k : K) (m : Assoc K V)
      → IsMap m
      → lookup k (retain p m)
        ≡ elim (lookup k m) [ none ↦ none | some v ↦ if p k v then some v else none ]
  unfolding lookup retain
  lookup-retain p k [] h = refl
  lookup-retain p k ((i, w) ∷ m) h = ground (arith, ==_iff i k, lookup-retain p k m h.1)

  pub length-retain-le : (p : K → V → Bool) (m : Assoc K V) → length (retain p m) ≤ length m
  unfolding retain
  length-retain-le p [] = omega arith
  length-retain-le p ((i, w) ∷ m) = ground (arith, length-retain-le p m)

  pub insert-append :
      (k : K) (v : V) (m t : Assoc K V)
      → lookup k m ≡ none
      → insert k v (m ++ t) ≡ m ++ insert k v t
  unfolding lookup insert
  insert-append k v [] t h = refl
  insert-append k v ((i, w) ∷ m) t h = ground (arith, insert-append k v m t)

  pub insert_fresh :
      (k : K) (v : V) (m : Assoc K V) → lookup k m ≡ none → insert k v m ≡ m ++ ((k, v) ∷ [])
  unfolding lookup insert
  insert_fresh k v [] h = refl
  insert_fresh k v ((i, w) ∷ m) h = ground (arith, insert_fresh k v m)

  pub lookup-append :
      (k : K) (m t : Assoc K V)
      → lookup k (m ++ t) ≡ elim (lookup k m) [ none ↦ lookup k t | some v ↦ some v ]
  unfolding lookup
  lookup-append k [] t = refl
  lookup-append k ((i, w) ∷ m) t = ground (arith, lookup-append k m t)

  retain_absent :
      (p : K → V → Bool) (k : K) (m : Assoc K V) → lookup k m ≡ none → lookup k (retain p m) ≡ none
  unfolding lookup retain
  retain_absent p k [] h = refl
  retain_absent p k ((i, w) ∷ m) h = ground (arith, retain_absent p k m)

  pub retain-IsMap : (p : K → V → Bool) (m : Assoc K V) → IsMap m → IsMap (retain p m)
  unfolding retain
  retain-IsMap p [] h = tt
  retain-IsMap p ((i, w) ∷ m) h = ground (arith, retain_absent p i m h.0, retain-IsMap p m h.1)
