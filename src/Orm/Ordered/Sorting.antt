-- ===== src/Orm/Ordered/Sorting.antt =====
-- `sort_by` under a total order gives a sorted rearrangement.
use mathlib.Core.List.{Perm}
use mathlib.Core.List.Perm
use Prim.Native.Nat.{Ordering}
use kernway.Prelude.{◌≡◌, refl, true, false, List, [], ◌∷◌, arith, inl, inr, Bool-cases, All}
use kernway.Orm.Ordered.{reverse, is_le, insert_first, sort_by, IsTotalOrder}

module _ {A : Type 0} (cmp : A → A → Ordering) where
  abbrev pub IsBelow : A → List A → Type 0
  IsBelow x ys = All (λ y. is_le (cmp x y) ≡ true) ys

  -- Each comes before all that follow it, or compares as equal.
  abbrev pub IsSorted : List A → Type 0
  IsSorted [] = Unit
  IsSorted (x ∷ xs) = IsBelow x xs × IsSorted xs

  insert_first-perm : (x : A) (ys : List A) → Perm (insert_first cmp x ys) (x ∷ ys)
  unfolding insert_first
  insert_first-perm x [] = Perm.rfl
  insert_first-perm x (y ∷ ys) = elim (Bool-cases (is_le (cmp x y))) [
    | inl e ↦ rw e Perm.rfl
    | inr e ↦ rw e (Perm.trans (Perm.cons y (insert_first-perm x ys)) (Perm.swap x y ys))
  ]

  pub sort_by-perm : (xs : List A) → Perm (sort_by cmp xs) xs
  unfolding sort_by
  sort_by-perm [] = Perm.rfl
  sort_by-perm (x ∷ xs) =
      Perm.trans (insert_first-perm x (sort_by cmp xs)) (Perm.cons x (sort_by-perm xs))

  module _ (o : IsTotalOrder cmp) where
    IsBelow-trans : (x y : A) (zs : List A) → is_le (cmp x y) ≡ true → IsBelow y zs → IsBelow x zs
    IsBelow-trans x y [] h b = tt
    IsBelow-trans x y (z ∷ zs) h (b, bs) = (o.trans x y z h b, IsBelow-trans x y zs h bs)

    pub le_of_not : (o1 : Ordering) → is_le o1 ≡ false → is_le (reverse o1) ≡ true
    le_of_not Ordering.lt h = ground (arith, h)
    le_of_not Ordering.eq h = ground (arith, h)
    le_of_not Ordering.gt h = refl

    IsBelow-insert_first :
        (x y : A) (ys : List A)
        → is_le (cmp y x) ≡ true
        → IsBelow y ys
        → IsBelow y (insert_first cmp x ys)
    unfolding insert_first
    IsBelow-insert_first x y [] h b = (h, tt)
    IsBelow-insert_first x y (z ∷ zs) h (b, bs) = elim (Bool-cases (is_le (cmp x z))) [
      | inl e ↦ rw e (h, (b, bs))
      | inr e ↦ rw e (b, IsBelow-insert_first x y zs h bs)
    ]

    insert_first-IsSorted : (x : A) (ys : List A) → IsSorted ys → IsSorted (insert_first cmp x ys)
    unfolding insert_first
    insert_first-IsSorted x [] s = (tt, tt)
    insert_first-IsSorted x (y ∷ ys) (b, s) = elim (Bool-cases (is_le (cmp x y))) [
      | inl e ↦ rw e ((e, IsBelow-trans x y ys e b), (b, s))
      | inr e ↦
          let back : is_le (cmp y x) ≡ true = rw (o.swap x y) (le_of_not (cmp x y) e) in
          rw e (IsBelow-insert_first x y ys back b, insert_first-IsSorted x ys s)
    ]

    pub sort_by-IsSorted : (xs : List A) → IsSorted (sort_by cmp xs)
    unfolding sort_by
    sort_by-IsSorted [] = tt
    sort_by-IsSorted (x ∷ xs) = insert_first-IsSorted x (sort_by cmp xs) (sort_by-IsSorted xs)
