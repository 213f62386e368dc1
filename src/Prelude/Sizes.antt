-- ===== src/Prelude/Sizes.antt =====
-- What the map operations do to the number of entries, and that they keep the keys distinct.
use Prim.Native.Nat.{◌+◌, ◌≤◌}
use mathlib.Core.Path.{◌≡◌, refl}
use mathlib.Core.Bool.{Bool}
use mathlib.Core.List.{[], ◌∷◌}
use mathlib.Core.Option.{none, some}
use native.Mathlib.Omega.{arith}
use kernway.Prelude.Lists.{length}
use kernway.Prelude.Equality.{Eq}
use kernway.Prelude.Maps.{
  Map, lookup, insert, remove, retain, IsUnique, lookup-insert, lookup-remove, lookup-retain,
}

module _ {ℓ κ} {K : Type ℓ} {V : Type κ} ⦃e : Eq K⦄ where
  pub insert-IsUnique : (k : K) (v : V) (m : Map K V) → IsUnique m → IsUnique (insert k v m)
  unfolding insert lookup
  insert-IsUnique k v [] u = (refl, tt)
  insert-IsUnique k v ((j, w) ∷ m) (fresh, u) =
      ground (arith, e.beq_iff j k, e.beq_iff k j, lookup-insert k j v m, insert-IsUnique k v m u)

  pub remove-IsUnique : (k : K) (m : Map K V) → IsUnique m → IsUnique (remove k m)
  unfolding remove
  remove-IsUnique k [] u = tt
  remove-IsUnique k ((j, w) ∷ m) (fresh, u) =
      ground (arith, e.beq_iff k j, lookup-remove k j m, remove-IsUnique k m u)

  pub retain-IsUnique : (p : V → Bool) (m : Map K V) → IsUnique m → IsUnique (retain p m)
  unfolding retain
  retain-IsUnique p [] u = tt
  retain-IsUnique p ((j, w) ∷ m) (fresh, u) =
      ground (arith, lookup-retain p j m u, retain-IsUnique p m u)

  pub length-insert : (k : K) (v : V) (m : Map K V) → length (insert k v m) ≤ length m + 1
  unfolding insert
  length-insert k v [] = omega arith
  length-insert k v ((j, w) ∷ m) = ground (arith, length-insert k v m)

  pub length-remove : (k : K) (m : Map K V) → length (remove k m) ≤ length m
  unfolding remove
  length-remove k [] = omega arith
  length-remove k ((j, w) ∷ m) = ground (arith, length-remove k m)

  pub length-retain : (p : V → Bool) (m : Map K V) → length (retain p m) ≤ length m
  unfolding retain
  length-retain p [] = omega arith
  length-retain p ((j, w) ∷ m) = ground (arith, length-retain p m)

  pub length-insert_new :
      (k : K) (v : V) (m : Map K V) → lookup k m ≡ none → length (insert k v m) ≡ length m + 1
  unfolding insert lookup
  length-insert_new k v [] h = omega arith
  length-insert_new k v ((j, w) ∷ m) h = ground (arith, length-insert_new k v m)

  pub length-insert_old :
      (k : K) (v w : V) (m : Map K V) → lookup k m ≡ some w → length (insert k v m) ≡ length m
  unfolding insert lookup
  length-insert_old k v w [] h = cc
  length-insert_old k v w ((j, x) ∷ m) h = ground (arith, length-insert_old k v w m)

  pub remove-insert_new :
      (k : K) (v : V) (m : Map K V) → lookup k m ≡ none → remove k (insert k v m) ≡ m
  unfolding insert lookup remove
  remove-insert_new k v [] h = rw ((e.beq_iff k k).1 refl) refl
  remove-insert_new k v ((j, w) ∷ m) h = ground (arith, remove-insert_new k v m)
