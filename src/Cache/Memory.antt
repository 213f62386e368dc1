-- ===== src/Cache/Memory.antt =====
-- crates/kernway-cache-memory/src/lib.rs over the entries of crates/kernway-cache-core. An `Instant` is its
-- nanoseconds since some start. The lock is held for the whole of an operation, so each is one step; its
-- recovery from poisoning changes nothing. Which key a `HashMap` gives first is a parameter.
pub mod View
pub mod Capacity
mod Tests
use kernway.Prelude.{
  ℕ, zero, suc, ◌+◌, ◌-◌, ◌*◌, ◌%◌, ◌^◌, ◌⊎◌, inl, inr, Bool, true, false, not, Option, none, some,
  List, [], ◌∷◌, ltb, leb, if◌then◌else◌, length, max, Eq, Map, lookup, insert, remove, retain,
}

pub data Ttl : Type 0 where
  forever : Ttl
  seconds : ℕ → Ttl

abbrev pub second : ℕ
second = 1000000000

minutes : ℕ → Ttl
minutes n = seconds (n * 60 % 2 ^ 64)

hours : ℕ → Ttl
hours n = seconds (n * 3600 % 2 ^ 64)

pub as_duration : Ttl → Option ℕ
as_duration forever = none
as_duration (seconds s) = some (s * second)

pub record CacheEntry (V : Type 0) : Type 0 where
  pub value : V
  pub created_at : ℕ
  pub ttl : Ttl

abbrev pub cache_entry : {V : Type 0} → V → Ttl → ℕ → CacheEntry V
cache_entry v ttl now = record { value = v; created_at = now; ttl = ttl }

-- The time that has passed stops at zero.
pub is_expired : {V : Type 0} → ℕ → CacheEntry V → Bool
is_expired now e = elim (as_duration e.ttl) [ none ↦ false | some d ↦ leb d (now - e.created_at) ]

pub record InMemoryCache (K V : Type 0) : Type 0 where
  pub store : Map K (CacheEntry V)
  pub capacity : Option ℕ
  pub hits : ℕ
  pub misses : ℕ

pub record CacheStats : Type 0 where
  pub hits : ℕ
  pub misses : ℕ
  pub entries : ℕ

abbrev pub new_cache : {K V : Type 0} → InMemoryCache K V
new_cache = record { store = []; capacity = none; hits = 0; misses = 0 }

abbrev pub with_capacity : {K V : Type 0} → ℕ → InMemoryCache K V
with_capacity most = record { store = []; capacity = some (max most 1); hits = 0; misses = 0 }

module _ {K V : Type 0} ⦃e : Eq K⦄ where
  pub purge_expired : ℕ → Map K (CacheEntry V) → Map K (CacheEntry V)
  purge_expired now store = retain (λ entry. not (is_expired now entry)) store

  pub hit : InMemoryCache K V → InMemoryCache K V
  hit c = record c { hits = (c.hits + 1) % 2 ^ 64 }

  pub miss : InMemoryCache K V → InMemoryCache K V
  miss c = record c { misses = (c.misses + 1) % 2 ^ 64 }

  pub get : InMemoryCache K V → K → ℕ → Option V × InMemoryCache K V
  get c k now = elim (lookup k c.store) [
    | none ↦ (none, miss c)
    | some entry ↦
        if not (is_expired now entry)
        then (some entry.value, hit c)
        else (none, miss (record c { store = remove k c.store }))
  ]

  pub put_if_absent : InMemoryCache K V → K → V → Ttl → ℕ → Bool × InMemoryCache K V
  put_if_absent c k v ttl now =
      let cleared : Map K (CacheEntry V) = elim (lookup k c.store) [
        | none ↦ c.store
        | some entry ↦ if is_expired now entry then remove k c.store else c.store
      ] in
      elim (lookup k cleared) [
        | some _ ↦ (false, record c { store = cleared })
        | none ↦ (true, record c { store = insert k (cache_entry v ttl now) cleared })
      ]

  pub evict : InMemoryCache K V → K → InMemoryCache K V
  evict c k = record c { store = remove k c.store }

  pub clear : InMemoryCache K V → InMemoryCache K V
  clear c = record c { store = [] }

  pub contains_key : InMemoryCache K V → K → ℕ → Bool × InMemoryCache K V
  contains_key c k now = elim (lookup k c.store) [
    | none ↦ (false, c)
    | some entry ↦
        if not (is_expired now entry)
        then (true, c)
        else (false, record c { store = remove k c.store })
  ]

  pub size : InMemoryCache K V → ℕ → ℕ × InMemoryCache K V
  size c now = let store = purge_expired now c.store in (length store, record c { store = store })

  stats : InMemoryCache K V → CacheStats
  stats c = record { hits = c.hits; misses = c.misses; entries = length c.store }

  module _ (first_key : Map K (CacheEntry V) → Option K) where
    -- `while store.len() > cap`
    pub evict_over : ℕ → ℕ → Map K (CacheEntry V) → Map K (CacheEntry V)
    evict_over zero most store = store
    evict_over (suc fuel) most store =
        let rest = evict_over fuel most in
        if ltb most (length store)
        then elim (first_key store) [ none ↦ store | some victim ↦ rest (remove victim store) ]
        else store

    pub bounded : Option ℕ → ℕ → Map K (CacheEntry V) → Map K (CacheEntry V)
    bounded none now store = store
    bounded (some most) now store =
        if ltb most (length store)
        then evict_over (length (purge_expired now store)) most (purge_expired now store)
        else store

    pub put : InMemoryCache K V → K → V → Ttl → ℕ → InMemoryCache K V
    put c k v ttl now = record c {
      store = bounded c.capacity now (insert k (cache_entry v ttl now) c.store);
    }

    -- The default of the trait `Cache`; the loader is what it gives.
    pub get_or_load :
        {E : Type 0} → InMemoryCache K V → K → Ttl → E ⊎ V → ℕ → (E ⊎ V) × InMemoryCache K V
    get_or_load c k ttl loader now =
        let (found, c1) = get c k now in
        elim found [
          | some v ↦ (inr v, c1)
          | none ↦ elim loader [ inl error ↦ (inl error, c1) | inr v ↦ (inr v, put c1 k v ttl now) ]
        ]
