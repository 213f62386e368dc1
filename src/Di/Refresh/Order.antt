-- ===== src/Di/Refresh/Order.antt =====
-- crates/di-core/src/context.rs: `refresh` builds every queued component once, and each after its hard
-- dependencies.
use mathlib.Core.List.{Perm, perm_middle}
use mathlib.Core.List.Perm
use kernway.Prelude.{
  ℕ, zero, suc, ◌≡◌, refl, sym, ap, ◌∙◌, Bool, true, false, not, List, [], ◌∷◌, ◌++◌, arith,
  if◌then◌else◌, Bool-cases, Option-cases, inl, inr, any, all, length, append_assoc, nat_eq,
}
use kernway.Di.Beans.{
  Instance, Outcome, ok, err, panic, out_of_fuel, Component, ComponentDef, AppContext,
}
use kernway.Di.Refresh.{
  contains, Wiring, ◌then◌, has_deps, ready, provide, missing, build, build_slot, sweep, passes,
  build_rest, settle, start, wire,
}

pub then_inv :
    {A B S : Type 0} (m : Outcome A × S) (f : A → S → Outcome B × S) (b : B) (t : S)
    → (m then f) ≡ (ok b, t)
    → (a : A) × (s : S) × (m ≡ (ok a, s)) × (f a s ≡ (ok b, t))
then_inv (ok a, s) f b t h = (a, s, refl, h)
then_inv (err e, s) f b t h = absurd (ground (arith, h))
then_inv (panic, s) f b t h = absurd (ground (arith, h))
then_inv (out_of_fuel, s) f b t h = absurd (ground (arith, h))

-- What is there after some types were provided.
abbrev pub opened : List ℕ → List ℕ → List ℕ
opened [] available = available
opened (p ∷ ps) available = opened ps (p ∷ available)

pub available-provide :
    (ps : List ℕ) (w : Wiring) → (provide ps w).available ≡ opened ps w.available
unfolding provide
available-provide [] w = refl
available-provide (p ∷ ps) w = available-provide ps _

pub contains-opened :
    (ps available : List ℕ) (k : ℕ)
    → contains available k ≡ true
    → contains (opened ps available) k ≡ true
contains-opened [] available k h = h
contains-opened (p ∷ ps) available k h = contains-opened ps (p ∷ available) k (ground (arith, h))

pub deps_opened :
    (ps available deps : List ℕ)
    → all (contains available) deps ≡ true
    → all (contains (opened ps available)) deps ≡ true
deps_opened ps available [] h = refl
deps_opened ps available (d ∷ deps) h =
    ground (arith, h, contains-opened ps available d, deps_opened ps available deps)

pub ready-deps : (d : ComponentDef) (w : Wiring) → ready w d ≡ true → has_deps w.available d ≡ true
unfolding ready
ready-deps d w h = ground (arith, h)

-- What is there stays there.
still :
    (d : ComponentDef) (ds : List ComponentDef) (w : Wiring)
    → all (has_deps w.available) ds ≡ true
    → all (has_deps (opened d.provides w.available)) ds ≡ true
unfolding has_deps
still d [] w h = refl
still d (e ∷ ds) w h = ground (arith, h, deps_opened d.provides w.available e.deps, still d ds w)

free_all :
    {A : Type 0} (p : A → Bool) (xs : List A) → any (λ x. not (p x)) xs ≡ false → all p xs ≡ true
free_all p [] h = refl
free_all p (x ∷ xs) h = ground (arith, h, free_all p xs)

module _ (create : Component → AppContext → Outcome Instance)
    (bind : Component → Instance → AppContext → Outcome (Unit {0}) × AppContext)
    (post_construct : Component → Instance → AppContext → Outcome (Unit {0})) where
  -- The components were built in this order, each when its hard dependencies were available.
  abbrev pub Built : Wiring → List ComponentDef → Wiring → Type 0
  Built w [] w' = w ≡ w'
  Built w (d ∷ ds) w' =
      (has_deps w.available d ≡ true)
      × (w1 : Wiring) × (build_slot create bind post_construct d w ≡ (ok tt, w1))
      × Built w1 ds w'

  pub Built-append :
      (ds es : List ComponentDef) (w w' w'' : Wiring)
      → Built w ds w'
      → Built w' es w''
      → Built w (ds ++ es) w''
  Built-append [] es w w' w'' h k = rw h k
  Built-append (d ∷ ds) es w w' w'' (deps, w1, e, rest) k =
      (deps, w1, e, Built-append ds es w1 w' w'' rest k)

  pub available-build_slot :
      (d : ComponentDef) (w w' : Wiring)
      → build_slot create bind post_construct d w ≡ (ok tt, w')
      → w'.available ≡ opened d.provides w.available
  unfolding build_slot
  available-build_slot d w w' h =
      let made = build create bind post_construct d.component w.context in
      let (u, s, e1, e2) =
        then_inv (made.0, record w { context = made.1 }) (λ _ v. (ok tt, provide d.provides v)) tt
          w' h in
      ap (λ (p : Outcome (Unit {0}) × Wiring). p.1.available) (sym e2)
      ∙ available-provide d.provides s
      ∙ ap (λ (p : Outcome (Unit {0}) × Wiring). opened d.provides p.1.available) (sym e1)

  -- Some were built in order, and the others are left.
  abbrev pub Swept : Wiring → List ComponentDef → List ComponentDef → Wiring → Type 0
  Swept w ds left w' = (order : List ComponentDef) × Built w order w' × Perm (order ++ left) ds

  Swept-end :
      (w w1 w2 : Wiring) (ds left rest : List ComponentDef)
      → Swept w ds left w1
      → left ≡ rest
      → w1 ≡ w2
      → Swept w ds rest w2
  Swept-end w w1 w2 ds left rest h e f = rw (← e, ← f) h

  Swept-built :
      (d : ComponentDef) (ds left : List ComponentDef) (w w1 w2 : Wiring)
      → has_deps w.available d ≡ true
      → build_slot create bind post_construct d w ≡ (ok tt, w1)
      → Swept w1 ds left w2
      → Swept w (d ∷ ds) left w2
  Swept-built d ds left w w1 w2 deps built (order, run, perm) =
      (d ∷ order, (deps, w1, built, run), Perm.cons d perm)

  Swept-left :
      (d : ComponentDef) (ds left : List ComponentDef) (w w2 : Wiring)
      → Swept w ds left w2
      → Swept w (d ∷ ds) (d ∷ left) w2
  Swept-left d ds left w w2 (order, run, perm) =
      (order, run, Perm.trans (perm_middle order left) (Perm.cons d perm))

  Swept-trans :
      (ds mid left : List ComponentDef) (w w1 w2 : Wiring)
      → Swept w ds mid w1
      → Swept w1 mid left w2
      → Swept w ds left w2
  Swept-trans ds mid left w w1 w2 (order, run, perm) (later, run', perm') = (
    order ++ later,
    Built-append order later w w1 w2 run run',
    rw (append_assoc order later left) (Perm.trans (Perm.append_left order perm') perm),
  )

  sweep-Swept :
      (ds left : List ComponentDef) (moved : Bool) (w w' : Wiring)
      → sweep create bind post_construct ds w ≡ (ok (left, moved), w')
      → Swept w ds left w'
  unfolding sweep
  sweep-Swept [] left moved w w' h =
      Swept-end w w w' [] [] left ([], refl, Perm.refl []) (ground (arith, h)) (ground (arith, h))
  sweep-Swept (d ∷ ds) left moved w w' h = elim (Bool-cases (ready w d)) [
    | inl now ↦
        let (u, w1, built, h1) =
          then_inv (build_slot create bind post_construct d w) _ (left, moved) w'
            (rw (sweep, now) at h) in
        let (rest, w2, swept, h2) =
          then_inv (sweep create bind post_construct ds w1) _ (left, moved) w' h1 in
        Swept-end w w2 w' (d ∷ ds) rest.0 left
          (Swept-built d ds rest.0 w w1 w2 (ready-deps d w now) built
            (sweep-Swept ds rest.0 rest.1 w1 w2 swept))
          (ground (arith, h2)) (ground (arith, h2))
    | inr later ↦
        let (rest, w2, swept, h2) =
          then_inv (sweep create bind post_construct ds w) _ (left, moved) w'
            (rw (sweep, later) at h) in
        Swept-end w w2 w' (d ∷ ds) (d ∷ rest.0) left
          (Swept-left d ds rest.0 w w2 (sweep-Swept ds rest.0 rest.1 w w2 swept))
          (ground (arith, h2)) (ground (arith, h2))
  ]

  pub passes-Swept :
      (fuel : ℕ) (ds left : List ComponentDef) (w w' : Wiring)
      → passes create bind post_construct fuel ds w ≡ (ok left, w')
      → Swept w ds left w'
  unfolding passes
  passes-Swept zero ds left w w' h = absurd (ground (arith, h))
  passes-Swept (suc fuel) ds left w w' h =
      let (swept, w1, e, h1) = then_inv (sweep create bind post_construct ds w) _ left w' h in
      let first = sweep-Swept ds swept.0 swept.1 w w1 e in
      elim (Bool-cases swept.1) [
        | inr stalled ↦
            let h2 : (ok swept.0, w1) ≡ (ok left, w') = rw stalled at h1 in
            Swept-end w w1 w' ds swept.0 left first (ground (arith, h2)) (ground (arith, h2))
        | inl moved ↦
            Swept-trans ds swept.0 left w w1 w' first
              (passes-Swept fuel swept.0 left w1 w' (rw moved at h1))
      ]

  build_rest-Built :
      (ds : List ComponentDef) (w w' : Wiring)
      → all (has_deps w.available) ds ≡ true
      → build_rest create bind post_construct ds w ≡ (ok tt, w')
      → Built w ds w'
  unfolding build_rest
  build_rest-Built [] w w' deps h = ground (arith, h)
  build_rest-Built (d ∷ ds) w w' deps h =
      let (u, w1, built, h1) = then_inv (build_slot create bind post_construct d w) _ tt w' h in
      let grown = available-build_slot d w w1 built in
      let now : has_deps w.available d ≡ true = ground (arith, deps) in
      let others : all (has_deps w.available) ds ≡ true = ground (arith, deps) in
      (now, w1, built, build_rest-Built ds w1 w' (rw grown (still d ds w others)) h1)

  settle-Built :
      (batch : List ℕ) (ds : List ComponentDef) (w w' : Wiring)
      → settle create bind post_construct batch ds w ≡ (ok tt, w')
      → Built w ds w'
  unfolding settle
  settle-Built batch ds w w' h = elim (Option-cases (missing w.available batch ds)) [
    | inr (d, e) ↦ let x = rw (settle, e) at h in absurd (ground (arith, x))
    | inl e ↦ elim (Bool-cases (any (λ d. not (has_deps w.available d)) ds)) [
      | inl blocked ↦ let x = rw (settle, e, blocked) at h in absurd (ground (arith, x))
      | inr free ↦
          build_rest-Built ds w w' (free_all (has_deps w.available) ds free)
            (rw (settle, e, free) at h)
    ]
  ]

  Swept-all :
      (ds left : List ComponentDef) (w w1 w2 : Wiring)
      → Swept w ds left w1
      → Built w1 left w2
      → (order : List ComponentDef) × Built w order w2 × Perm order ds
  Swept-all ds left w w1 w2 (order, run, perm) rest =
      (order ++ left, Built-append order left w w1 w2 run rest, perm)

  -- When a round of `refresh` succeeds, every component that was queued has been built exactly once, in an
  -- order in which each is built when all its hard dependencies are available, be it from before or from
  -- components built earlier.
  pub wire-Built :
      (c : AppContext) (w' : Wiring)
      → wire create bind post_construct c ≡ (ok tt, w')
      → (order : List ComponentDef) × Built (start c c.pending) order w' × Perm order c.pending
  unfolding wire
  wire-Built c w' h =
      let (left, w1, passed, h1) =
        then_inv (passes create bind post_construct (suc (length c.pending)) c.pending _) _ tt w'
          h in
      let w0 = start c c.pending in
      Swept-all c.pending left w0 w1 w'
        (passes-Swept (suc (length c.pending)) c.pending left w0 w1 passed)
        (settle-Built _ left w1 w' h1)
