-- ===== src/Cache/Memory/View.antt =====
-- crates/kernway-cache-memory/src/lib.rs: what a caller sees of the cache, which is the live values alone.
use kernway.Prelude.{
  ℕ, ◌≤◌, ◌≡◌, refl, sym, ap, ◌∙◌, inl, inr, Bool, true, false, not, Option, none, some,
  if◌then◌else◌, arith, Bool-cases, Eq, same, same_iff, Map, lookup, remove, lookup-remove,
  lookup-retain, keep_if, IsUnique, suc, [], ◌∷◌, length, retain,
}
use kernway.Cache.Memory.{
  as_duration, CacheEntry, is_expired, InMemoryCache, purge_expired, hit, miss, get, contains_key,
  size,
}

abbrev pub live : {V : Type 0} → ℕ → Option (CacheEntry V) → Option V
live now none = none
live now (some entry) = if is_expired now entry then none else some entry.value

abbrev pub is_some : {V : Type 0} → Option V → Bool
is_some none = false
is_some (some v) = true

-- How many values have not expired.
abbrev pub live_count : {K V : Type 0} → ℕ → Map K (CacheEntry V) → ℕ
live_count now [] = 0
live_count now ((k, entry) ∷ store) =
    let rest = live_count now store in if is_some (live now (some entry)) then suc rest else rest

expired_later :
    {V : Type 0} (now later : ℕ) (entry : CacheEntry V)
    → now ≤ later
    → is_expired now entry ≡ true
    → is_expired later entry ≡ true
unfolding is_expired
expired_later now later entry h e = go (as_duration entry.ttl) refl
  where
    go : (d : Option ℕ) → as_duration entry.ttl ≡ d → is_expired later entry ≡ true
    go none f = let x = rw (is_expired, f) at e in absurd (ground (arith, x))
    go (some d) f = let x = rw (is_expired, f) at e in rw (is_expired, f) (ground (arith, x, h))

live_later :
    {V : Type 0} (now later : ℕ) (entry : CacheEntry V)
    → now ≤ later
    → is_expired now entry ≡ true
    → live later (some entry) ≡ none
live_later now later entry h e = rw (expired_later now later entry h e) refl

module _ {K V : Type 0} ⦃e : Eq K⦄ where
  -- The value of a key, if it has one that has not expired.
  abbrev pub view : InMemoryCache K V → K → ℕ → Option V
  view c k now = live now (lookup k c.store)

  -- An entry that has expired can be dropped unseen.
  live-remove :
      (store : Map K (CacheEntry V)) (k j : K) (entry : CacheEntry V) (now later : ℕ)
      → now ≤ later
      → lookup k store ≡ some entry
      → is_expired now entry ≡ true
      → live later (lookup j (remove k store)) ≡ live later (lookup j store)
  live-remove store k j entry now later h found old = elim (Bool-cases (same k j)) [
    | inl here ↦
        let at = (same_iff k j).0 here in
        let gone : lookup j (remove k store) ≡ none = rw (lookup-remove k j store, here) refl in
        rw (gone, ← at, found) (sym (live_later now later entry h old))
    | inr other ↦ rw (lookup-remove k j store, other) refl
  ]

  live-purge :
      (store : Map K (CacheEntry V)) (j : K) (now later : ℕ)
      → now ≤ later
      → IsUnique store
      → live later (lookup j (purge_expired now store)) ≡ live later (lookup j store)
  unfolding purge_expired
  live-purge store j now later h u =
      ap (live later) (lookup-retain (λ entry. not (is_expired now entry)) j store u)
      ∙ go (lookup j store)
    where
      go :
          (o : Option (CacheEntry V))
          → live later (keep_if (λ entry. not (is_expired now entry)) o) ≡ live later o
      go none = refl
      go (some entry) = elim (Bool-cases (is_expired now entry)) [
        | inl old ↦ rw old (sym (live_later now later entry h old))
        | inr fresh ↦ rw fresh refl
      ]

  length-purge :
      (store : Map K (CacheEntry V)) (now : ℕ)
      → length (purge_expired now store) ≡ live_count now store
  unfolding purge_expired retain
  length-purge [] now = refl
  length-purge ((k, entry) ∷ store) now = elim (Bool-cases (is_expired now entry)) [
    | inl old ↦ rw old (length-purge store now)
    | inr fresh ↦ rw fresh (ap suc (length-purge store now))
  ]

  get-view :
      (c : InMemoryCache K V) (k j : K) (now later : ℕ)
      → now ≤ later
      → ((get c k now).0 ≡ view c k now) × (view (get c k now).1 j later ≡ view c j later)
  unfolding get hit miss
  get-view c k j now later h = go (lookup k c.store) refl
    where
      go :
          (o : Option (CacheEntry V))
          → lookup k c.store ≡ o
          → ((get c k now).0 ≡ view c k now) × (view (get c k now).1 j later ≡ view c j later)
      go none f = rw (get, f) (refl, refl)
      go (some entry) f = elim (Bool-cases (is_expired now entry)) [
        | inl old ↦ rw (get, f, old) (refl, live-remove c.store k j entry now later h f old)
        | inr fresh ↦ rw (get, f, fresh) (refl, refl)
      ]

  contains-view :
      (c : InMemoryCache K V) (k j : K) (now later : ℕ)
      → now ≤ later
      → ((contains_key c k now).0 ≡ is_some (view c k now))
        × (view (contains_key c k now).1 j later ≡ view c j later)
  unfolding contains_key
  contains-view c k j now later h = go (lookup k c.store) refl
    where
      go :
          (o : Option (CacheEntry V))
          → lookup k c.store ≡ o
          → ((contains_key c k now).0 ≡ is_some (view c k now))
            × (view (contains_key c k now).1 j later ≡ view c j later)
      go none f = rw (contains_key, f) (refl, refl)
      go (some entry) f = elim (Bool-cases (is_expired now entry)) [
        | inl old ↦
            rw (contains_key, f, old) (refl, live-remove c.store k j entry now later h f old)
        | inr fresh ↦ rw (contains_key, f, fresh) (refl, refl)
      ]

  -- `get` gives the live value of a key, `contains_key` whether there is one, and `size` how many entries are
  -- live; what they drop on the way, which has expired, is never missed: every later view is as it would
  -- have been.
  pub reads-view :
      (c : InMemoryCache K V) (k j : K) (now later : ℕ)
      → now ≤ later
      → IsUnique c.store
      → ((get c k now).0 ≡ view c k now)
        × ((contains_key c k now).0 ≡ is_some (view c k now))
        × ((size c now).0 ≡ live_count now c.store)
        × (view (get c k now).1 j later ≡ view c j later)
        × (view (contains_key c k now).1 j later ≡ view c j later)
        × (view (size c now).1 j later ≡ view c j later)
  unfolding size
  reads-view c k j now later h u =
      let g = get-view c k j now later h in
      let m = contains-view c k j now later h in
      (g.0, m.0, length-purge c.store now, g.1, m.1, live-purge c.store j now later h u)
