-- ===== src/Cache/Memory/Capacity.antt =====
-- crates/kernway-cache-memory/src/lib.rs: what `put` makes visible, what it forgets, and the bound that it keeps.
use kernway.Prelude.{
  ℕ, zero, suc, ◌+◌, ◌≤◌, ◌<◌, ◌≡◌, ◌⊎◌, refl, ap, ◌∙◌, inl, inr, true, false, not, Option, none,
  some, [], ◌∷◌, ltb, if◌then◌else◌, arith, Bool-cases, Option-cases, length, length-insert, Eq,
  same, Map, lookup, insert, remove, lookup-insert, lookup-remove, lookup-retain, IsUnique,
  insert-IsUnique,
}
use kernway.Cache.Memory.{
  Ttl, CacheEntry, cache_entry, is_expired, InMemoryCache, purge_expired, put_if_absent, evict_over,
  bounded, put,
}
use kernway.Cache.Memory.View.{live, view}

module _ {K V : Type 0} ⦃e : Eq K⦄ where
  -- A map with nothing but entries of another.
  abbrev Forgets : Map K (CacheEntry V) → Map K (CacheEntry V) → Type 0
  Forgets store less = (j : K) → (lookup j less ≡ none) ⊎ (lookup j less ≡ lookup j store)

  Forgets-trans : (a b c : Map K (CacheEntry V)) → Forgets a b → Forgets b c → Forgets a c
  Forgets-trans a b c f g j = elim (g j) [
    | inl gone ↦ inl gone
    | inr kept ↦ elim (f j) [ inl gone ↦ inl (kept ∙ gone) | inr held ↦ inr (kept ∙ held) ]
  ]

  remove-Forgets : (store : Map K (CacheEntry V)) (k : K) → Forgets store (remove k store)
  remove-Forgets store k j = elim (Bool-cases (same k j)) [
    | inl here ↦ inl (rw (lookup-remove k j store, here) refl)
    | inr other ↦ inr (rw (lookup-remove k j store, other) refl)
  ]

  purge-Forgets :
      (store : Map K (CacheEntry V)) (now : ℕ)
      → IsUnique store
      → Forgets store (purge_expired now store)
  unfolding purge_expired
  purge-Forgets store now u j = go (lookup j store) refl
    where
      go :
          (o : Option (CacheEntry V))
          → lookup j store ≡ o
          → (lookup j (purge_expired now store) ≡ none)
            ⊎ (lookup j (purge_expired now store) ≡ lookup j store)
      go none f = inl (rw (lookup-retain (λ entry. not (is_expired now entry)) j store u, f) refl)
      go (some entry) f = elim (Bool-cases (is_expired now entry)) [
        | inl old ↦
            inl (rw (lookup-retain (λ entry. not (is_expired now entry)) j store u, f, old) refl)
        | inr fresh ↦
            inr (rw (lookup-retain (λ entry. not (is_expired now entry)) j store u, f, fresh) refl)
      ]

  length-remove_le : (k : K) (store : Map K (CacheEntry V)) → length (remove k store) ≤ length store
  unfolding remove
  length-remove_le k [] = omega arith
  length-remove_le k ((j, v) ∷ store) = ground (arith, length-remove_le k store)

  length-remove :
      (k : K) (entry : CacheEntry V) (store : Map K (CacheEntry V))
      → lookup k store ≡ some entry
      → length (remove k store) < length store
  unfolding remove lookup
  length-remove k entry [] h = absurd (ground (arith, h))
  length-remove k entry ((j, v) ∷ store) h = elim (Bool-cases (same j k)) [
    | inl here ↦ rw here (omega (arith, length-remove_le k store))
    | inr other ↦ rw other (omega (arith, length-remove k entry store (rw other at h)))
  ]

  length-insert_new :
      (k : K) (entry : CacheEntry V) (store : Map K (CacheEntry V))
      → lookup k store ≡ none
      → length (insert k entry store) ≡ length store + 1
  unfolding insert lookup
  length-insert_new k entry [] h = omega arith
  length-insert_new k entry ((j, v) ∷ store) h = elim (Bool-cases (same j k)) [
    | inl here ↦ let x = rw here at h in absurd (ground (arith, x))
    | inr other ↦ rw other (omega (arith, length-insert_new k entry store (rw other at h)))
  ]

  -- `put_if_absent` does not look at the capacity: on a cache that is full, a key that is not there is
  -- stored, and the cache holds one entry more than its limit.
  pub put_if_absent-overfull :
      (c : InMemoryCache K V) (k : K) (v : V) (ttl : Ttl) (now most : ℕ)
      → c.capacity ≡ some most
      → length c.store ≡ most
      → lookup k c.store ≡ none
      → ((put_if_absent c k v ttl now).0 ≡ true)
        × ((put_if_absent c k v ttl now).1.capacity ≡ some most)
        × (length (put_if_absent c k v ttl now).1.store ≡ most + 1)
  unfolding put_if_absent
  put_if_absent-overfull c k v ttl now most limit full fresh =
      rw (put_if_absent, fresh, fresh, fresh)
        (
          refl,
          limit,
          length-insert_new k (cache_entry v ttl now) c.store fresh ∙ ap (λ n. n + 1) full,
        )

  module _ (first_key : Map K (CacheEntry V) → Option K) where
    -- The order of a map gives a key of it, unless it is empty.
    abbrev pub IsKeyOf : Type 0
    IsKeyOf =
        (store : Map K (CacheEntry V))
        → 1 ≤ length store
        → (k : K) × (entry : CacheEntry V) × (first_key store ≡ some k)
          × (lookup k store ≡ some entry)

    evict_over-Forgets :
        (fuel most : ℕ) (store : Map K (CacheEntry V))
        → Forgets store (evict_over first_key fuel most store)
    unfolding evict_over
    evict_over-Forgets zero most store = λ j. inr refl
    evict_over-Forgets (suc fuel) most store = elim (Bool-cases (ltb most (length store))) [
      | inr fits ↦ rw (evict_over, fits) (λ j. inr refl)
      | inl over ↦ elim (Option-cases (first_key store)) [
        | inl f ↦ rw (evict_over, over, f) (λ j. inr refl)
        | inr (k, f) ↦
            rw (evict_over, over, f)
              (Forgets-trans store (remove k store) _ (remove-Forgets store k)
                (evict_over-Forgets fuel most (remove k store)))
      ]
    ]

    bounded-Forgets :
        (most : Option ℕ) (now : ℕ) (store : Map K (CacheEntry V))
        → IsUnique store
        → Forgets store (bounded first_key most now store)
    unfolding bounded
    bounded-Forgets none now store u = λ j. inr refl
    bounded-Forgets (some most) now store u = elim (Bool-cases (ltb most (length store))) [
      | inr fits ↦ rw (bounded, fits) (λ j. inr refl)
      | inl over ↦
          rw (bounded, over)
            (Forgets-trans store (purge_expired now store) _ (purge-Forgets store now u) (
              evict_over-Forgets (length (purge_expired now store)) most (purge_expired now store)))
    ]

    view_inserted :
        (c : InMemoryCache K V) (k j : K) (v : V) (ttl : Ttl) (now later : ℕ)
        → live later (lookup j (insert k (cache_entry v ttl now) c.store))
          ≡ (if same k j then live later (some (cache_entry v ttl now)) else view c j later)
    view_inserted c k j v ttl now later = elim (Bool-cases (same k j)) [
      | inl here ↦ rw (lookup-insert k j (cache_entry v ttl now) c.store, here) refl
      | inr other ↦ rw (lookup-insert k j (cache_entry v ttl now) c.store, other) refl
    ]

    -- Where the cache has no limit, or room for one more entry, the key that was put has its new value from
    -- then on, until it expires, and every other key has what it had.
    pub put-view :
        (c : InMemoryCache K V) (k j : K) (v : V) (ttl : Ttl) (now later : ℕ)
        → ((most : ℕ) → c.capacity ≡ some most → length c.store + 1 ≤ most)
        → view (put first_key c k v ttl now) j later
          ≡ (if same k j then live later (some (cache_entry v ttl now)) else view c j later)
    unfolding put bounded
    put-view c k j v ttl now later room = go c.capacity refl
      where
        go :
            (o : Option ℕ)
            → c.capacity ≡ o
            → view (put first_key c k v ttl now) j later
              ≡ (if same k j then live later (some (cache_entry v ttl now)) else view c j later)
        go none free = rw (put, free, bounded) (view_inserted c k j v ttl now later)
        go (some most) limit =
            let size = length-insert k (cache_entry v ttl now) c.store in
            let fits : ltb most (length (insert k (cache_entry v ttl now) c.store)) ≡ false =
              ground (arith, room most limit, size) in
            rw (put, limit, bounded, fits) (view_inserted c k j v ttl now later)

    -- After a `put`, whatever the limit and whichever keys the map gives first, a key has its new value if it
    -- is the one that was put, its old value otherwise, or none, where it was forgotten; never any other.
    pub put-forgets :
        (c : InMemoryCache K V) (k j : K) (v : V) (ttl : Ttl) (now later : ℕ)
        → IsUnique c.store
        → (view (put first_key c k v ttl now) j later ≡ none)
          ⊎ (view (put first_key c k v ttl now) j later
              ≡ (if same k j then live later (some (cache_entry v ttl now)) else view c j later))
    unfolding put
    put-forgets c k j v ttl now later u =
        elim (bounded-Forgets c.capacity now (insert k (cache_entry v ttl now) c.store)
          (insert-IsUnique k (cache_entry v ttl now) c.store u) j) [
            | inl gone ↦ inl (ap (live later) gone)
            | inr kept ↦ inr (ap (live later) kept ∙ view_inserted c k j v ttl now later)
          ]

    evict_over-bound :
        (fuel most : ℕ) (store : Map K (CacheEntry V))
        → IsKeyOf
        → length store ≤ fuel
        → length (evict_over first_key fuel most store) ≤ most
    unfolding evict_over
    evict_over-bound zero most store law f = omega (arith, f)
    evict_over-bound (suc fuel) most store law f = elim (Bool-cases (ltb most (length store))) [
      | inr fits ↦ rw (evict_over, fits) (ground (arith, fits))
      | inl over ↦
          let (k, entry, first, found) = law store (ground (arith, over)) in
          rw (evict_over, over, first)
            (evict_over-bound fuel most (remove k store) law
              (omega (arith, f, length-remove k entry store found)))
    ]

    -- After a `put`, a cache with a limit holds no more entries than it, however many it held before and
    -- whichever keys the map gives first; the loop that evicts ends within its fuel.
    pub put-bound :
        (c : InMemoryCache K V) (k : K) (v : V) (ttl : Ttl) (now most : ℕ)
        → IsKeyOf
        → c.capacity ≡ some most
        → length (put first_key c k v ttl now).store ≤ most
    unfolding put bounded
    put-bound c k v ttl now most law limit =
        rw (put, limit, bounded)
          (elim (Bool-cases (ltb most (length (insert k (cache_entry v ttl now) c.store)))) [
            | inr fits ↦ rw fits (ground (arith, fits))
            | inl over ↦ rw over (evict_over-bound _ most _ law (omega arith))
          ])
