-- ===== src/Di/Refresh/Ready.antt =====
-- crates/di-core/src/context.rs: when the components of a list find their dependencies.
use mathlib.Core.List.{Perm, Permᴰ}
use mathlib.Core.Logic.{∥∥₁_elim}
use kernway.Prelude.{
  ℕ, ◌≡◌, refl, ap, Bool, true, false, ◌&&◌, List, [], ◌∷◌, ◌++◌, arith, ◌==◌, ==_iff, Bool-cases,
  inl, inr, all, map, nat_eq,
}
use kernway.Di.Beans.{ComponentDef, AppContext}
use kernway.Di.Refresh.{contains, Wiring, has_deps, ready}
use kernway.Di.Refresh.Order.{opened, contains-opened}

abbrev pub types : AppContext → List ℕ
types c = map (λ kv. kv.0) c.instances

-- In this order each component finds its hard dependencies.
abbrev pub IsAdmissible : List ℕ → List ComponentDef → Type 0
IsAdmissible available [] = Unit {0}
IsAdmissible available (d ∷ ds) =
    (has_deps available d ≡ true) × IsAdmissible (opened d.provides available) ds

all_permd :
    {A : Type 0} (p : A → Bool) {xs ys : List A} → Permᴰ xs ys → all p xs ≡ true → all p ys ≡ true
all_permd p Permᴰ.nil h = h
all_permd p (Permᴰ.cons e d) h = ground (arith, h, ap p e, all_permd p d)
all_permd p (Permᴰ.swap e f) h = ground (arith, h, ap p e, ap p f)
all_permd p (Permᴰ.trans d d') h = all_permd p d' (all_permd p d h)

pub all_perm :
    {A : Type 0} (p : A → Bool) {xs ys : List A} → Perm xs ys → all p xs ≡ true → all p ys ≡ true
all_perm p {xs = xs} {ys = ys} d h =
    let prop : IsProp (all p ys ≡ true) = hlevel in
    ∥∥₁_elim {P = all p ys ≡ true} d prop (λ (s : Permᴰ xs ys). all_permd p s h)

pub all_append :
    {A : Type 0} (p : A → Bool) (xs ys : List A) → all p (xs ++ ys) ≡ (all p xs && all p ys)
all_append p [] ys = refl
all_append p (x ∷ xs) ys = ground (arith, all_append p xs ys)

-- What holds of the types in a list.
abbrev pub Holds : List ℕ → List ℕ → Type 0
Holds less more = (k : ℕ) → contains less k ≡ true → contains more k ≡ true

pub all_more :
    (less more ps : List ℕ)
    → Holds less more
    → all (contains less) ps ≡ true
    → all (contains more) ps ≡ true
all_more less more [] grow h = refl
all_more less more (p ∷ ps) grow h = ground (arith, h, grow p, all_more less more ps grow)

pub opened_least :
    (ps available more : List ℕ)
    → Holds available more
    → all (contains more) ps ≡ true
    → Holds (opened ps available) more
opened_least [] available more grow h = grow
opened_least (p ∷ ps) available more grow h =
    opened_least ps (p ∷ available) more first (ground (arith, h))
  where
    first : Holds (p ∷ available) more
    first k e = elim (Bool-cases (p == k)) [
      | inl here ↦ let at = (==_iff p k).0 here in rw (← at) (ground (arith, h))
      | inr other ↦ grow k (ground (arith, e, other))
    ]

pub opened_self : (ps available : List ℕ) → all (contains (opened ps available)) ps ≡ true
opened_self [] available = refl
opened_self (p ∷ ps) available = ground (
  arith,
  contains-opened ps (p ∷ available) p (ground (arith, same_self p)),
  opened_self ps (p ∷ available),
)
  where
    same_self : (p : ℕ) → (p == p) ≡ true
    same_self p = (==_iff p p).1 refl

unfoldable pub hard_only : ComponentDef → Bool
hard_only d = elim d.opt_deps [ [] ↦ true | _ ∷ _ ↦ false ]

pub ready-hard :
    (w : Wiring) (d : ComponentDef) → hard_only d ≡ true → ready w d ≡ has_deps w.available d
unfolding ready hard_only
ready-hard w d h = go d.opt_deps refl
  where
    go : (o : List ℕ) → d.opt_deps ≡ o → ready w d ≡ has_deps w.available d
    go [] e = rw (ready, e) (ground arith)
    go (o ∷ os) e = let x = rw (hard_only, e) at h in absurd (ground (arith, x))
