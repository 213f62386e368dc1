-- ===== src/Static/Tests.antt =====
-- Requests for the files of crates/kernway-static/src/lib.rs, and the theorem on one of them.
use kernway.Prelude.{
  ◌≡◌, ◌⊎◌, refl, List, [], ◌∷◌, ◌++◌, Bytes, codes, All, split, list_eq, nat_eq, is_utf8,
}
use kernway.Static.{
  StaticFiles, static_files, Rejected, accepted, rejected, hex_val, decode_from, percent_decode,
  is_illegal, inspect, resolve_decoded, resolve,
}
use kernway.Static.Safety.{IsSafe, resolve-IsSafe}

abbrev public_files : StaticFiles
public_files = static_files (codes "/srv/www")

abbrev guide_path : List Bytes
guide_path = codes "my docs" ∷ codes "index.html" ∷ []

serves_index : resolve public_files (codes "//my%20docs/./") ≡ accepted guide_path
unfolding resolve percent_decode decode_from hex_val resolve_decoded is_illegal inspect split
    is_utf8
serves_index = refl

refuses_traversal : resolve public_files (codes "/a/%2e%2e/b") ≡ rejected Rejected.traversal
unfolding resolve percent_decode decode_from hex_val resolve_decoded is_illegal inspect split
    is_utf8
refuses_traversal = refl

resolve-IsSafe_example :
    (names : List Bytes) × All IsSafe names
    × ((guide_path ≡ names) ⊎ (guide_path ≡ names ++ codes "index.html" ∷ []))
resolve-IsSafe_example =
    resolve-IsSafe public_files (codes "//my%20docs/./") guide_path serves_index
