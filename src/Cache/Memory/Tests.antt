-- ===== src/Cache/Memory/Tests.antt =====
-- The cache of crates/kernway-cache-memory with room for two entries.
use kernway.Prelude.{
  ℕ, ◌+◌, ◌*◌, ◌≤◌, ◌≡◌, refl, inr, false, Option, none, some, [], ◌∷◌, arith, length, nat_eq,
  same_refl, Map, lookup, insert, remove, retain, IsUnique,
}
use kernway.Cache.Memory.{
  forever, seconds, minutes, hours, second, as_duration, CacheEntry, is_expired, InMemoryCache,
  with_capacity, purge_expired, hit, miss, get, put_if_absent, evict, clear, contains_key, size,
  stats, evict_over, bounded, put, get_or_load,
}
use kernway.Cache.Memory.View.{is_some, live_count, view, reads-view}
use kernway.Cache.Memory.Capacity.{IsKeyOf, put-bound}

caching : Unit {0}
unfolding lookup insert remove retain minutes hours as_duration is_expired purge_expired hit miss
    get put_if_absent evict clear contains_key size stats evict_over bounded put get_or_load
caching = tt

abbrev Store : Type 0
Store = Map ℕ (CacheEntry ℕ)

abbrev oldest : Store → Option ℕ
oldest [] = none
oldest ((k, v) ∷ store) = some k

abbrev newest : Store → Option ℕ
newest [] = none
newest ((k, v) ∷ []) = some k
newest (a ∷ b ∷ store) = newest (b ∷ store)

oldest-IsKeyOf : IsKeyOf oldest
unfolding lookup
oldest-IsKeyOf [] h = absurd (omega arith)
oldest-IsKeyOf ((k, v) ∷ store) h = (k, v, refl, rw (same_refl k) refl)

abbrev two : InMemoryCache ℕ ℕ
two = put oldest (put oldest (with_capacity 2) 1 10 forever 0) 2 20 (seconds 1) 0

two-IsUnique : IsUnique two.store
unfolding caching
two-IsUnique = (refl, (refl, tt))

uses :
    ((get two 2 5).0 ≡ some 20)
    × ((get two 2 second).0 ≡ none)
    × ((stats (get two 2 second).1).entries ≡ 1)
    × ((size (put oldest two 3 30 forever 5) 5).0 ≡ 2)
    × ((get (put oldest two 3 30 forever 5) 1 6).0 ≡ none)
    × ((contains_key (evict two 1) 1 5).0 ≡ false)
    × ((get_or_load oldest {E = Unit {0}} two 3 (minutes 1) (inr 30) 5).0 ≡ inr 30)
    × ((clear two).store ≡ [])
    × (hours 1 ≡ minutes 60)
unfolding caching
uses = (refl, refl, refl, refl, refl, refl, refl, refl, refl)

-- Where the map gives the new key first, `put` drops what it has just stored.
put_lost : (get (put newest two 3 30 forever 5) 3 6).0 ≡ none
unfolding caching
put_lost = refl

-- An entry that has expired is counted by `stats` until an operation drops it.
expired_counted : (stats two).entries ≡ (size two second).0 + 1
unfolding caching
expired_counted = refl

reads-view_example :
    ((get two 2 second).0 ≡ view two 2 second)
    × ((contains_key two 2 second).0 ≡ is_some (view two 2 second))
    × ((size two second).0 ≡ live_count second two.store)
    × (view (get two 2 second).1 1 (2 * second) ≡ view two 1 (2 * second))
    × (view (contains_key two 2 second).1 1 (2 * second) ≡ view two 1 (2 * second))
    × (view (size two second).1 1 (2 * second) ≡ view two 1 (2 * second))
reads-view_example = reads-view two 2 1 second (2 * second) (omega arith) two-IsUnique

abbrev one : InMemoryCache ℕ ℕ
one = put oldest (with_capacity 2) 1 10 forever 0

one-room : (most : ℕ) → one.capacity ≡ some most → length one.store + 1 ≤ most
unfolding caching
one-room most h = ground (arith, h)

put-bound_example : length (put oldest two 3 30 forever 5).store ≤ 2
unfolding caching
put-bound_example = put-bound oldest two 3 30 forever 5 2 oldest-IsKeyOf refl
