-- ===== src/Di/Refresh/Progress.antt =====
-- crates/di-core/src/context.rs: the passes of `refresh` end when nothing more is ready, when each component is
-- built once its dependencies are in the container.

use kernway.Prelude.{
  ℕ, zero, suc, ◌≤◌, ◌<◌, ◌≡◌, refl, ap, ◌∙◌, Bool, true, false, not, List, [], ◌∷◌, arith,
  Bool-cases, inl, inr, all, All, length, nat_eq,
}
use kernway.Di.Beans.{Instance, Outcome, ok, Component, ComponentDef, AppContext}
use kernway.Di.Refresh.{
  contains, Wiring, has_deps, ready, provide, build, build_slot, sweep, passes,
}
use kernway.Di.Refresh.Order.{available-provide, ready-deps}
use kernway.Di.Refresh.Ready.{types, Holds, all_more, opened_least}

context-provide : (ps : List ℕ) (w : Wiring) → (provide ps w).context ≡ w.context
unfolding provide
context-provide [] w = refl
context-provide (p ∷ ps) w = context-provide ps _

module _ (create : Component → AppContext → Outcome Instance)
    (bind : Component → Instance → AppContext → Outcome (Unit {0}) × AppContext)
    (post_construct : Component → Instance → AppContext → Outcome (Unit {0})) where
  -- What a component promises: when its hard dependencies are in the container, it is built, what it
  -- provides is there then, nothing that was there is gone, and it queues no component.
  pub record Builds (d : ComponentDef) (c : AppContext) : Type 0 where
    pub succeeds : (build create bind post_construct d.component c).0 ≡ ok tt
    pub kept : Holds (types c) (types (build create bind post_construct d.component c).1)
    pub provided :
        all (contains (types (build create bind post_construct d.component c).1)) d.provides ≡ true
    pub queues : (build create bind post_construct d.component c).1.pending ≡ c.pending

  abbrev pub Keeps : ComponentDef → Type 0
  Keeps d = (c : AppContext) → all (contains (types c)) d.deps ≡ true → Builds d c

  -- What counts as available is in the container, and nothing is queued.
  pub record Linked (w : Wiring) : Type 0 where
    pub there : Holds w.available (types w.context)
    pub idle : w.context.pending ≡ []

  record Slot (d : ComponentDef) (w : Wiring) : Type 0 where
    end_ : Wiring
    runs : build_slot create bind post_construct d w ≡ (ok tt, end_)
    linked : Linked end_

  Slot-Builds : (d : ComponentDef) (w : Wiring) → Linked w → Builds d w.context → Slot d w
  unfolding build_slot
  Slot-Builds d w l b =
      let c = (build create bind post_construct d.component w.context).1 in
      let w1 : Wiring = record w { context = c } in
      record {
        end_ = provide d.provides w1;
        runs = rw (build_slot, b.succeeds) refl;
        linked = record {
          there =
              rw (available-provide d.provides w1, context-provide d.provides w1)
                (opened_least d.provides w.available (types c) (λ k h. b.kept k (l.there k h))
                  b.provided);
          idle = rw (context-provide d.provides w1) (b.queues ∙ l.idle);
        };
      }

  Slot-Keeps :
      (d : ComponentDef) (w : Wiring)
      → Linked w
      → has_deps w.available d ≡ true
      → Keeps d
      → Slot d w
  unfolding has_deps
  Slot-Keeps d w l deps k =
      Slot-Builds d w l (k w.context (all_more w.available (types w.context) d.deps l.there deps))

  -- A pass over the slots, which succeeds.
  record Pass (ds : List ComponentDef) (w : Wiring) : Type 0 where
    left : List ComponentDef
    moved : Bool
    end_ : Wiring
    runs : sweep create bind post_construct ds w ≡ (ok (left, moved), end_)
    linked : Linked end_
    works : All Keeps left
    fewer : length left ≤ length ds
    progress : moved ≡ true → length left < length ds
    still : moved ≡ false → (end_ ≡ w) × (all (λ d. not (ready end_ d)) left ≡ true)

  Pass-built :
      (d : ComponentDef) (ds : List ComponentDef) (w w1 : Wiring)
      → ready w d ≡ true
      → build_slot create bind post_construct d w ≡ (ok tt, w1)
      → Pass ds w1
      → Pass (d ∷ ds) w
  unfolding sweep
  Pass-built d ds w w1 now e p = record {
    left = p.left;
    moved = true;
    end_ = p.end_;
    runs = rw (sweep, now, e, p.runs) refl;
    linked = p.linked;
    works = p.works;
    fewer = ground (arith, p.fewer);
    progress = λ _. ground (arith, p.fewer);
    still = λ bad. absurd (ground (arith, bad));
  }

  Pass-left :
      (d : ComponentDef) (ds : List ComponentDef) (w : Wiring)
      → ready w d ≡ false
      → Keeps d
      → Pass ds w
      → Pass (d ∷ ds) w
  unfolding sweep
  Pass-left d ds w later k p = record {
    left = d ∷ p.left;
    moved = p.moved;
    end_ = p.end_;
    runs = rw (sweep, later, p.runs) refl;
    linked = p.linked;
    works = (k, p.works);
    fewer = ground (arith, p.fewer);
    progress = λ m. ground (arith, p.progress m);
    still = λ m.
        let same = (p.still m).0 in
        let rest = (p.still m).1 in (same, ground (arith, rest, ap (λ v. ready v d) same, later));
  }

  sweep-Pass : (ds : List ComponentDef) (w : Wiring) → Linked w → All Keeps ds → Pass ds w
  unfolding sweep
  sweep-Pass [] w l ks = record {
    left = [];
    moved = false;
    end_ = w;
    runs = refl;
    linked = l;
    works = tt;
    fewer = ground arith;
    progress = λ bad. absurd (ground (arith, bad));
    still = λ _. (refl, refl);
  }
  sweep-Pass (d ∷ ds) w l (k, ks) = elim (Bool-cases (ready w d)) [
    | inl now ↦
        let s = Slot-Keeps d w l (ready-deps d w now) k in
        Pass-built d ds w s.end_ now s.runs (sweep-Pass ds s.end_ s.linked ks)
    | inr later ↦ Pass-left d ds w later k (sweep-Pass ds w l ks)
  ]

  -- The passes, when nothing more is ready.
  pub record Done (fuel : ℕ) (ds : List ComponentDef) (w : Wiring) : Type 0 where
    pub left : List ComponentDef
    pub end_ : Wiring
    pub runs : passes create bind post_construct fuel ds w ≡ (ok left, end_)
    pub linked : Linked end_
    pub stalled : all (λ d. not (ready end_ d)) left ≡ true

  Done-again :
      (fuel : ℕ) (ds : List ComponentDef) (w : Wiring) (p : Pass ds w)
      → p.moved ≡ true
      → Done fuel p.left p.end_
      → Done (suc fuel) ds w
  unfolding passes
  Done-again fuel ds w p m d = record {
    left = d.left;
    end_ = d.end_;
    runs = rw (passes, p.runs, m) d.runs;
    linked = d.linked;
    stalled = d.stalled;
  }

  pub passes-Done :
      (fuel : ℕ) (ds : List ComponentDef) (w : Wiring)
      → length ds < fuel
      → Linked w
      → All Keeps ds
      → Done fuel ds w
  unfolding passes
  passes-Done zero ds w f l ks = absurd (ground (arith, f))
  passes-Done (suc fuel) ds w f l ks =
      let p = sweep-Pass ds w l ks in
      elim (Bool-cases p.moved) [
        | inl m ↦
            Done-again fuel ds w p m
              (passes-Done fuel p.left p.end_ (ground (arith, f, p.progress m)) p.linked p.works)
        | inr m ↦ record {
          left = p.left;
          end_ = p.end_;
          runs = rw (passes, p.runs, m) refl;
          linked = p.linked;
          stalled = (p.still m).1;
        }
      ]
