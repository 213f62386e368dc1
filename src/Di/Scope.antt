-- ===== src/Di/Scope.antt =====
-- crates/di-core/src/scope.rs: the container of one request, over that of the application. The lock on the
-- map is uncontended, since a request is pinned to its core.
mod Tests
use kernway.Prelude.{
  ℕ, ◌≡◌, ◌≢◌, refl, Bool, true, false, Option, none, some, List, [], ◌∷◌, ◌++◌, arith, ◌==◌,
  ==_iff, if◌then◌else◌, Bytes, Map, lookup, insert, nat_eq, same, same_refl, lookup-insert,
}
use kernway.Di.Beans.{
  Instance, Outcome, ok, err, panic, out_of_fuel, AppContext, downcast, get, get_qualified, get_all,
  get_as, get_all_as,
}
use kernway.Di.Beans.Lookup.{IsValid, get-safe}

pub record RequestScope : Type 0 where
  pub local : Map ℕ Instance
  pub parent : AppContext

abbrev new_scope : AppContext → RequestScope
new_scope parent = record { local = []; parent = parent }

-- `set` and `insert`: the object is of the type that it is filed under.
pub put_local : RequestScope → ℕ → ℕ → RequestScope
put_local s type_id address = record s {
  local = insert type_id (record { concrete = type_id; address = address }) s.local;
}

has_local : RequestScope → ℕ → Bool
has_local s type_id = elim (lookup type_id s.local) [ none ↦ false | some _ ↦ true ]

local_get : RequestScope → ℕ → Option (Outcome Instance)
local_get s type_id = elim (lookup type_id s.local) [
  | none ↦ none
  | some i ↦ some (downcast type_id i)
]

pub scope_get : RequestScope → ℕ → Bytes → Outcome Instance
scope_get s type_id name = elim (local_get s type_id) [
  | some found ↦ found
  | none ↦ get s.parent type_id name
]

scope_get_qualified : RequestScope → ℕ → Bytes → Bytes → Outcome Instance
scope_get_qualified s type_id name q = get_qualified s.parent type_id name q

scope_get_as : RequestScope → ℕ → Bytes → Outcome ℕ
scope_get_as s arc_type name = get_as s.parent arc_type name

-- The beans of the application, and that of the request behind them.
scope_get_all : RequestScope → ℕ → Outcome (List Instance)
scope_get_all s type_id = elim (local_get s type_id) [
  | none ↦ ok (get_all s.parent type_id)
  | some (ok i) ↦ ok (get_all s.parent type_id ++ i ∷ [])
  | some (err e) ↦ err e
  | some panic ↦ panic
  | some out_of_fuel ↦ out_of_fuel
]

scope_get_all_as : RequestScope → ℕ → List ℕ
scope_get_all_as s arc_type = get_all_as s.parent arc_type

-- What was set in the request is what a lookup finds there; any other type is found as before.
pub scope_get-put :
    (s : RequestScope) (t a k : ℕ) (name : Bytes)
    → scope_get (put_local s t a) k name
      ≡ (if t == k then ok (record { concrete = t; address = a }) else scope_get s k name)
unfolding scope_get put_local local_get downcast
scope_get-put s t a k name =
    ground (arith, lookup-insert t k (record { concrete = t; address = a }) s.local)
