-- ===== src/Di/Refresh/Tests.antt =====
-- Two components, of which one wants the other, and what `refresh` makes of them.
use mathlib.Core.List.{Perm}
use mathlib.Core.List.Perm
use kernway.Prelude.{
  ℕ, ◌≡◌, refl, false, none, List, [], ◌∷◌, if◌then◌else◌, all, lookup, insert, nat_eq,
}
use kernway.Di.Beans.{
  user, Instance, missing_dependency, circular_dependency, Outcome, ok, err, Component,
  ComponentDef, AppContext, Filed, empty, is_default, entry, filed, beans, register_with_entry,
  component_entry, register_component,
}
use kernway.Di.Refresh.{
  contains, count_provider, count_providers, has_deps, ready, provide, missing, build, build_slot,
  sweep, passes, build_rest, settle, start, wire, refresh,
}
use kernway.Di.Refresh.Order.{Built, wire-Built}
use kernway.Di.Refresh.Ready.{types, hard_only}

wiring : Unit {0}
unfolding lookup insert is_default entry filed beans register_with_entry component_entry
    register_component count_provider count_providers has_deps ready provide missing build
    build_slot sweep passes build_rest settle start wire refresh hard_only
wiring = tt

-- A component whose own type is all that it provides.
abbrev component : ℕ → List ℕ → List ℕ → Component
component k deps soft = record {
  type_id = k;
  type_name = k ∷ [];
  bean_origin = user;
  is_primary = false;
  qualifier = none;
  dependencies = deps;
  optional_dependencies = soft;
  provides = k ∷ [];
}

abbrev create : Component → AppContext → Outcome Instance
create t c =
    if all (contains (types c)) t.dependencies
    then ok (record { concrete = t.type_id; address = t.type_id })
    else err (missing_dependency t.type_name)

abbrev bind : Component → Instance → AppContext → Outcome (Unit {0}) × AppContext
bind t i c = (ok tt, c)

abbrev post_construct : Component → Instance → AppContext → Outcome (Unit {0})
post_construct t i c = ok tt

-- The service, 2, wants the repository, 1, and is queued first.
abbrev queued : AppContext
queued = register_component (register_component empty (component 2 (1 ∷ []) [])) (component 1 [] [])

abbrev in_order : List ComponentDef
in_order =
    (register_component (register_component empty (component 1 [] []))
      (component 2 (1 ∷ []) [])).pending

runs :
    (types (refresh create bind post_construct 2 queued).1 ≡ 1 ∷ 2 ∷ [])
    × ((refresh create bind post_construct 2 (register_component empty (component 2 (1 ∷ []) []))).0
        ≡ err (missing_dependency (2 ∷ [])))
unfolding wiring
runs = (refl, refl)

-- 1 collects the beans of the type 3, and 2 provides one and wants 1: 1 waits for 2, though 1 could be built
-- first, and 2 is reported as a cycle.
abbrev collected : AppContext
collected =
    register_component (register_component empty (component 1 [] (3 ∷ [])))
      (record (component 2 (1 ∷ []) []) { provides = 2 ∷ 3 ∷ [] })

soft_cycle : (refresh create bind post_construct 2 collected).0 ≡ err (circular_dependency (2 ∷ []))
unfolding wiring
soft_cycle = refl

-- The components of a round that failed are gone, and the next `refresh` succeeds.
failed_once :
    let after = (refresh create bind post_construct 2 collected).1 in
    ((refresh create bind post_construct 2 after).0 ≡ ok tt) × (types after ≡ [])
unfolding wiring
failed_once = (refl, refl)

abbrev held : ℕ → List ℕ → AppContext → List Filed
held k deps c =
    filed (component_entry (component k deps []) k (k ∷ [])) (record { concrete = k; address = k })
      (beans c k)

abbrev made : ℕ → List ℕ → AppContext → AppContext
made k deps c = record c { instances = insert k (held k deps c) c.instances }

wire-Built_example :
    (order : List ComponentDef) × Built create bind post_construct
      (start queued queued.pending)
      order
      (wire create bind post_construct queued).1
    × Perm order queued.pending
unfolding wiring
wire-Built_example =
    wire-Built create bind post_construct queued (wire create bind post_construct queued).1 refl
