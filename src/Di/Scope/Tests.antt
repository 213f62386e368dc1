-- ===== src/Di/Scope/Tests.antt =====
-- The beans of one request before those of the application.
use kernway.Prelude.{◌≡◌, refl, true, false, codes, lookup, insert}
use kernway.Di.Beans.{ok, empty, downcast, get}
use kernway.Di.Scope.{
  RequestScope, new_scope, put_local, has_local, local_get, scope_get, scope_get_all,
}

scope : Unit {0}
unfolding lookup insert put_local has_local local_get scope_get scope_get_all downcast
scope = tt

abbrev request : RequestScope
request = put_local (put_local (new_scope empty) 3 10) 3 11

scopes :
    (scope_get request 3 (codes "Csrf") ≡ ok (record { concrete = 3; address = 11 }))
    × (scope_get request 4 (codes "Other") ≡ get empty 4 (codes "Other"))
    × (has_local request 3 ≡ true)
    × (has_local request 4 ≡ false)
unfolding scope
scopes = (refl, refl, refl, refl)
