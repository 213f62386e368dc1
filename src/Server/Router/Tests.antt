-- ===== src/Server/Router/Tests.antt =====
-- The router of crates/kernway-server/src/router.rs on a small table.
use Prim.Native.String.{String}
use kernway.Prelude.{
  ℕ, ◌≡◌, refl, Option, none, some, List, [], ◌∷◌, any, bytes_eq, codes, split, uppercase, All, ◌<◌,
  arith, lowercase, lookup, insert, remove,
}
use kernway.Server.Router.{
  Node, Params, segments, placeholder, trim_slashes, cut, at_static, at_param, place, add_at, add,
  handler_for, get_static, try_param, try_static, descend, endpoint, walk, find, nil, param, node,
  empty_node,
}
use kernway.Server.Router.Routes.{is_some}
use kernway.Server.Router.Table.{Route, add_all, router, serves, find-answers}
use kernway.Server.Router.Bindings.{IsFresh, AreFresh, IsFreshParam}

routing : Unit {0}
unfolding segments placeholder trim_slashes cut at_static at_param place add_at add handler_for
    get_static try_param try_static descend endpoint walk find add_all split uppercase lowercase
    lookup insert remove
routing = tt

abbrev get_ : String → ℕ → Route ℕ
get_ path handler = record { method = codes "get"; path = codes path; handler = handler }

get_-HasAsciiMethod : All (λ b. b < 0x80) (codes "get")
get_-HasAsciiMethod = (omega arith, (omega arith, (omega arith, tt)))

abbrev table : List (Route ℕ)
table = get_ "/users/{id}" 1 ∷ get_ "/users/me" 2 ∷ get_ "/a/b/c" 3 ∷ get_ "/a/{x}/d" 4 ∷ []

abbrev ask : String → Option (ℕ × Params)
ask path = find (codes "GET") (codes path) (router uppercase table)

answers :
    (ask "/users/me" ≡ some (2, []))
    × (ask "//users/42/" ≡ some (1, (codes "id", codes "42") ∷ []))
    × (ask "/a/b/d" ≡ some (4, (codes "x", codes "b") ∷ []))
    × (ask "/a" ≡ none)
    × (find (codes "POST") (codes "/users/me") (router uppercase table) ≡ none)
unfolding routing
answers = (refl, refl, refl, refl, refl)

-- Two names that are repeated down the trie: the inner branch fails, and unbinds the outer name.
abbrev repeated : List (Route ℕ)
repeated = get_ "/{id}/b/{id}/z" 1 ∷ get_ "/{id}/{x}/{y}" 2 ∷ []

outer_name_lost :
    find (codes "GET") (codes "/1/b/3") (router uppercase repeated)
    ≡ some (2, (codes "x", codes "b") ∷ (codes "y", codes "3") ∷ [])
unfolding routing
outer_name_lost = refl

find-answers_example :
    is_some (find (codes "GET") (codes "/users/7") (router uppercase table))
    ≡ any (serves (codes "GET") (codes "/users/7")) table
find-answers_example =
    find-answers uppercase (λ s ascii. refl) (codes "GET") (codes "/users/7") table
      (get_-HasAsciiMethod, (get_-HasAsciiMethod, (get_-HasAsciiMethod, (get_-HasAsciiMethod, tt))))

abbrev one_param : Node ℕ
one_param = node nil (param (codes "id") empty_node) []

one_param-IsFresh : IsFresh one_param ((codes "x", codes "1") ∷ [])
unfolding IsFresh AreFresh IsFreshParam lookup
one_param-IsFresh = (tt, (refl, λ seg. (tt, tt)))
