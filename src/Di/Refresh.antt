-- ===== src/Di/Refresh.antt =====
-- crates/di-core/src/context.rs: `refresh`, which builds the queued components in the order of their
-- dependencies. The code that the derive macro writes for a component is a parameter: how it is built
-- from the container, its trait bindings and its hook. `remaining` is the list of the slots not yet
-- taken. A pass that builds something leaves fewer of them, so their number is fuel enough for the
-- passes; the outer loop, which goes on while a build queues new components, has fuel of its own.
pub mod Order
pub mod Ready
pub mod Progress
pub mod Complete
mod Tests
use kernway.Prelude.{
  ℕ, zero, suc, ◌+◌, ◌-◌, Bool, true, false, not, ◌&&◌, ◌||◌, Option, none, some, List, [], ◌∷◌,
  ◌++◌, map, ◌==◌, if◌then◌else◌, unwrap_or, length, any, all, keep, Bytes, nat_eq, Map, lookup,
  insert,
}
use kernway.Di.Beans.{
  Instance, DiError, circular_dependency, missing_dependency, Outcome, ok, err, panic, out_of_fuel,
  Component, ComponentDef, AppContext, component_entry, register_with_entry,
}

abbrev pub contains : List ℕ → ℕ → Bool
contains ks k = any (λ j. j == k) ks

-- What `refresh` keeps beside the container: the types that are there, and how many providers of each
-- type the batch has not built yet.
pub record Wiring : Type 0 where
  pub context : AppContext
  pub available : List ℕ
  pub pending_providers : Map ℕ ℕ

-- One step after another, while they succeed.
infixl 5 ◌then◌
abbrev pub ◌then◌ : {A B S : Type 0} → Outcome A × S → (A → S → Outcome B × S) → Outcome B × S
(ok a, s) then f = f a s
(err e, s) then f = (err e, s)
(panic, s) then f = (panic, s)
(out_of_fuel, s) then f = (out_of_fuel, s)

pub count_provider : Map ℕ ℕ → ℕ → Map ℕ ℕ
count_provider m p = insert p (unwrap_or (lookup p m) 0 + 1) m

pub count_providers : List ComponentDef → Map ℕ ℕ → Map ℕ ℕ
count_providers [] m = m
count_providers (d ∷ ds) m = count_providers ds (counted d.provides m)
  where
    counted : List ℕ → Map ℕ ℕ → Map ℕ ℕ
    counted [] m = m
    counted (p ∷ ps) m = counted ps (count_provider m p)

pub has_deps : List ℕ → ComponentDef → Bool
has_deps available d = all (contains available) d.deps

pub ready : Wiring → ComponentDef → Bool
ready w d =
    has_deps w.available d && all (λ k. unwrap_or (lookup k w.pending_providers) 0 == 0) d.opt_deps

-- The types of a component that was built.
pub provide : List ℕ → Wiring → Wiring
provide [] w = w
provide (p ∷ ps) w = provide ps (record w {
  available = p ∷ w.available;
  pending_providers = elim (lookup p w.pending_providers) [
    | none ↦ w.pending_providers
    | some n ↦ insert p (n - 1) w.pending_providers
  ];
})

abbrev names : List ComponentDef → Bytes
names [] = []
names (d ∷ []) = d.type_name
names (d ∷ e ∷ ds) = d.type_name ++ b',' ∷ 32 ∷ names (e ∷ ds)

-- A hard dependency that neither is there nor is provided in the batch, if a component has one.
pub missing : List ℕ → List ℕ → List ComponentDef → Option ComponentDef
missing available batch [] = none
missing available batch (d ∷ ds) =
    let rest = missing available batch ds in
    if all (λ k. contains available k || contains batch k) d.deps then rest else some d

pub start : AppContext → List ComponentDef → Wiring
start c defs = record {
  context = record c { pending = [] };
  available = map (λ kv. kv.0) c.instances;
  pending_providers = count_providers defs [];
}

module _ (create : Component → AppContext → Outcome Instance)
    (bind : Component → Instance → AppContext → Outcome (Unit {0}) × AppContext)
    (post_construct : Component → Instance → AppContext → Outcome (Unit {0})) where
  -- The closure that `register_component` queues.
  pub build : Component → AppContext → Outcome (Unit {0}) × AppContext
  build t c = (create t c, c) then (λ i c.
      register_with_entry c (component_entry t t.type_id t.type_name) i
      then (λ _ c. bind t i c then (λ _ c. (post_construct t i c, c))))

  -- A component is built, and what it provides becomes available.
  pub build_slot : ComponentDef → Wiring → Outcome (Unit {0}) × Wiring
  build_slot d w =
      let (result, c) = build d.component w.context in
      (result, record w { context = c }) then (λ _ w. (ok tt, provide d.provides w))

  -- One pass over the slots: those left, and whether any was built.
  pub sweep : List ComponentDef → Wiring → Outcome (List ComponentDef × Bool) × Wiring
  sweep [] w = (ok ([], false), w)
  sweep (d ∷ ds) w =
      let later = sweep ds in
      if ready w d
      then build_slot d w
      then (λ _ w. later w then (λ left w. (ok (left.0, true), w)))
      else later w then (λ left w. (ok (d ∷ left.0, left.1), w))

  -- `while built_any`
  pub passes : ℕ → List ComponentDef → Wiring → Outcome (List ComponentDef) × Wiring
  passes zero ds w = (out_of_fuel, w)
  passes (suc fuel) ds w =
      let again = passes fuel in
      sweep ds w then (λ left w. if left.1 then again left.0 w else (ok left.0, w))

  -- The rest, which waits only for soft dependencies, in the order of the slots. The source no longer
  -- counts providers here, and the counts are not read again.
  pub build_rest : List ComponentDef → Wiring → Outcome (Unit {0}) × Wiring
  build_rest [] w = (ok tt, w)
  build_rest (d ∷ ds) w = let rest = build_rest ds in build_slot d w then (λ _ w. rest w)

  -- What becomes of the components that are left when nothing more is ready.
  pub settle : List ℕ → List ComponentDef → Wiring → Outcome (Unit {0}) × Wiring
  settle batch remaining w = elim (missing w.available batch remaining) [
    | some d ↦ (err (missing_dependency d.type_name), w)
    | none ↦
        if any (λ d. not (has_deps w.available d)) remaining
        then (
          err (circular_dependency (names (keep (λ d. not (has_deps w.available d)) remaining))),
          w,
        )
        else build_rest remaining w
  ]

  -- One round of the outer loop.
  pub wire : AppContext → Outcome (Unit {0}) × Wiring
  wire c =
      let batch = map (λ kv. kv.0) (count_providers c.pending []) in
      passes (suc (length c.pending)) c.pending (start c c.pending)
      then (λ remaining w. settle batch remaining w)

  pub refresh : ℕ → AppContext → Outcome (Unit {0}) × AppContext
  refresh zero c = (out_of_fuel, c)
  refresh (suc fuel) c =
      let again = refresh fuel in
      elim c.pending [
        | [] ↦ (ok tt, c)
        | d ∷ ds ↦ let (result, w) = wire c in (result, w.context) then (λ _ c. again c)
      ]
