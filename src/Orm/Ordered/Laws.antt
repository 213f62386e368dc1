-- ===== src/Orm/Ordered/Laws.antt =====
-- The comparisons of text and of truth values are total orders, and so are the reverse of one and
-- one on options.
use Prim.Native.Nat.{Ordering}
use kernway.Prelude.{◌≡◌, refl, Bool, true, false, Option, none, some, [], ◌∷◌, arith, Bytes}
use kernway.Orm.Ordered.{reverse, is_eq, is_le, text_cmp, bool_cmp, options_cmp, IsTotalOrder}

text_cmp_refl : (s : Bytes) → text_cmp s s ≡ Ordering.eq
unfolding text_cmp
text_cmp_refl [] = refl
text_cmp_refl (x ∷ s) = ground (arith, text_cmp_refl s)

text_cmp-swap : (s t : Bytes) → text_cmp t s ≡ reverse (text_cmp s t)
unfolding text_cmp
text_cmp-swap [] [] = refl
text_cmp-swap [] (y ∷ t) = refl
text_cmp-swap (x ∷ s) [] = refl
text_cmp-swap (x ∷ s) (y ∷ t) = ground (arith, text_cmp-swap s t)

text_cmp_trans :
    (s t u : Bytes)
    → is_le (text_cmp s t) ≡ true
    → is_le (text_cmp t u) ≡ true
    → is_le (text_cmp s u) ≡ true
unfolding text_cmp
text_cmp_trans [] [] u h k = k
text_cmp_trans [] (y ∷ t) [] h k = refl
text_cmp_trans [] (y ∷ t) (z ∷ u) h k = refl
text_cmp_trans (x ∷ s) [] u h k = absurd (ground (arith, h))
text_cmp_trans (x ∷ s) (y ∷ t) [] h k = absurd (ground (arith, k))
text_cmp_trans (x ∷ s) (y ∷ t) (z ∷ u) h k = ground (arith, text_cmp_trans s t u)

pub text_cmp-IsTotalOrder : IsTotalOrder text_cmp
text_cmp-IsTotalOrder = record {
  refl_eq = λ a. rw text_cmp_refl refl;
  swap = text_cmp-swap;
  trans = text_cmp_trans;
}

bool_cmp_trans :
    (a b c : Bool)
    → is_le (bool_cmp a b) ≡ true
    → is_le (bool_cmp b c) ≡ true
    → is_le (bool_cmp a c) ≡ true
bool_cmp_trans false b c h k = ground arith
bool_cmp_trans true b c h k = ground arith

bool_cmp-swap : (a b : Bool) → bool_cmp b a ≡ reverse (bool_cmp a b)
bool_cmp-swap a b = ground arith

pub bool_cmp-IsTotalOrder : IsTotalOrder bool_cmp
bool_cmp-IsTotalOrder = record {
  refl_eq = λ a. ground arith;
  swap = bool_cmp-swap;
  trans = bool_cmp_trans;
}

module _ {ℓ} {A : Type ℓ} {cmp : A → A → Ordering} (o : IsTotalOrder cmp) where
  pub congr-IsTotalOrder :
      {same : A → A → Ordering} → ((a b : A) → same a b ≡ cmp a b) → IsTotalOrder same
  congr-IsTotalOrder e = record {
    refl_eq = λ a. rw (e a a) (o.refl_eq a);
    swap = λ a b. rw (e a b, e b a) (o.swap a b);
    trans = λ a b c h k. rw (e a c) (o.trans a b c (rw (e a b) at h) (rw (e b c) at k));
  }

  -- The order the other way round.
  pub flipped-IsTotalOrder : IsTotalOrder (λ a b. reverse (cmp a b))
  flipped-IsTotalOrder = record {
    refl_eq = λ a. ground (arith, o.refl_eq a);
    swap = λ a b. rw (o.swap a b) refl;
    trans = λ a b c h k. rw (← o.swap a c) (o.trans c b a (rw (o.swap b c) k) (rw (o.swap a b) h));
  }

  -- Compared by a key.
  pub keyed-IsTotalOrder {κ} :
      {B : Type κ} (key : B → A) → IsTotalOrder (λ a b. cmp (key a) (key b))
  keyed-IsTotalOrder key = record {
    refl_eq = λ a. o.refl_eq (key a);
    swap = λ a b. o.swap (key a) (key b);
    trans = λ a b c. o.trans (key a) (key b) (key c);
  }

  -- With what is absent in front.
  pub options-IsTotalOrder : IsTotalOrder (options_cmp cmp)
  options-IsTotalOrder = record { refl_eq = itself; swap = swapped; trans = chained }
    where
      itself : (a : Option A) → is_eq (options_cmp cmp a a) ≡ true
      itself none = refl
      itself (some a) = o.refl_eq a

      swapped : (a b : Option A) → options_cmp cmp b a ≡ reverse (options_cmp cmp a b)
      swapped none none = refl
      swapped none (some b) = refl
      swapped (some a) none = refl
      swapped (some a) (some b) = o.swap a b

      chained :
          (a b c : Option A)
          → is_le (options_cmp cmp a b) ≡ true
          → is_le (options_cmp cmp b c) ≡ true
          → is_le (options_cmp cmp a c) ≡ true
      chained none b none h k = refl
      chained none b (some c) h k = refl
      chained (some a) none c h k = absurd (ground (arith, h))
      chained (some a) (some b) none h k = absurd (ground (arith, k))
      chained (some a) (some b) (some c) h k = o.trans a b c h k
