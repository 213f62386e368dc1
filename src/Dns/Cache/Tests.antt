-- ===== src/Dns/Cache/Tests.antt =====
-- The cache of crates/kernway-dns/src/cache.rs on two hosts.
use kernway.Prelude.{
  ◌+◌, ◌*◌, ◌≡◌, refl, none, some, [], ◌∷◌, arith, ltb, if◌then◌else◌, min, max, codes, bytes_eq,
  same, lookup, insert, retain, IsUnique,
}
use kernway.Dns.Cache.{
  second, min_ttl, max_ttl, negative_ttl, hit, negative, Cache, empty, answer, fresh, get, clamp,
  swept, put, put_positive, put_negative, len,
}
use kernway.Dns.Cache.Answers.{put-IsUnique, get-put_positive}

cache : Unit {0}
unfolding lookup insert retain answer fresh get clamp swept put put_positive put_negative len
cache = tt

abbrev known : Cache
known = put_positive empty (codes "a.b") ((1 ∷ 2 ∷ 3 ∷ 4 ∷ []) ∷ []) (2 * second) 5

known-IsUnique : IsUnique known.map
known-IsUnique = (put-IsUnique empty (codes "a.b") ((1 ∷ 2 ∷ 3 ∷ 4 ∷ []) ∷ []) (2 * second) 5 tt).0

answers :
    (get known (codes "a.b") (2 * second) ≡ some (hit ((1 ∷ 2 ∷ 3 ∷ 4 ∷ []) ∷ [])))
    × (get known (codes "a.b") (2 * second + 5) ≡ none)
    × (get known (codes "c") 6 ≡ none)
    × (get (put_negative known (codes "a.b") negative_ttl 7) (codes "a.b") 8 ≡ some negative)
unfolding cache
answers = (refl, refl, refl, refl)

get-put_positive_example : get (put_positive known (codes "a.b") [] 0 9) (codes "a.b") 10 ≡ (
    if same (codes "a.b") (codes "a.b")
    then (if ltb 10 (9 + min (max 0 min_ttl) max_ttl) then some (hit []) else none)
    else get known (codes "a.b") 10)
get-put_positive_example =
    get-put_positive known (codes "a.b") (codes "a.b") [] 0 9 10 known-IsUnique (omega arith)
