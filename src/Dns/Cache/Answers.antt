-- ===== src/Dns/Cache/Answers.antt =====
-- crates/kernway-dns/src/cache.rs: what the cache answers after each change, and how large it grows.
use kernway.Prelude.{
  ℕ, ◌+◌, ◌≤◌, ◌≡◌, refl, Option, none, some, List, arith, ltb, leb, leb→lt, if◌then◌else◌,
  Bool-cases, inl, inr, length, min, max, Bytes, bytes_eq, same, keep_if, Map, lookup, retain,
  IsUnique, lookup-insert, lookup-retain, insert-IsUnique, retain-IsUnique, length-insert,
}
use kernway.Dns.Cache.{
  min_ttl, max_ttl, soft_cap, hit, negative, positive, missing, Entry, Cache, answer, fresh, get,
  clamp, swept, put, put_positive, put_negative, len,
}

swept-IsUnique : (m : Map Bytes Entry) (now : ℕ) → IsUnique m → IsUnique (swept m now)
unfolding swept
swept-IsUnique m now u = elim (Bool-cases (leb soft_cap (length m))) [
  | inl full ↦ rw full (retain-IsUnique (λ (e : Entry). ltb now e.expires) m u)
  | inr room ↦ rw room u
]

kept_fresh :
    (o : Option Entry) (now t : ℕ)
    → now ≤ t
    → fresh (keep_if (λ e. ltb now e.expires) o) t ≡ fresh o t
unfolding fresh
kept_fresh none now t h = refl
kept_fresh (some e) now t h = ground arith

-- A sweep changes no later answer.
fresh-swept :
    (m : Map Bytes Entry) (host : Bytes) (now t : ℕ)
    → IsUnique m
    → now ≤ t
    → fresh (lookup host (swept m now)) t ≡ fresh (lookup host m) t
unfolding swept
fresh-swept m host now t u h = elim (Bool-cases (leb soft_cap (length m))) [
  | inl full ↦
      rw (full, lookup-retain (λ (e : Entry). ltb now e.expires) host m u)
        (kept_fresh (lookup host m) now t h)
  | inr room ↦ rw room refl
]

get-put :
    (c : Cache) (host other : Bytes) (e : Entry) (now t : ℕ)
    → IsUnique c.map
    → now ≤ t
    → get (put c host e now) other t ≡ (if same host other then fresh (some e) t else get c other t)
unfolding get put
get-put c host other e now t u h =
    rw (lookup-insert host other e (swept c.map now)) (elim (Bool-cases (same host other)) [
      | inl y ↦ rw y refl
      | inr n ↦ rw n (fresh-swept c.map other now t u h)
    ])

-- After the addresses of a host are cached, later lookups of that host give them until the clamped
-- time to live has passed and nothing from then on, and lookups of other hosts give what they did.
pub get-put_positive :
    (c : Cache) (host other : Bytes) (ips : List Bytes) (ttl now t : ℕ)
    → IsUnique c.map
    → now ≤ t
    → get (put_positive c host ips ttl now) other t ≡ (
        if same host other
        then (if ltb t (now + min (max ttl min_ttl) max_ttl) then some (hit ips) else none)
        else get c other t)
unfolding put_positive fresh answer clamp
get-put_positive c host other ips ttl now t u h =
    rw (get-put c host other _ now t u h) (ground arith)

-- After a host is cached as unknown, later lookups of it say so for exactly the given time to live,
-- which is not clamped, and lookups of other hosts give what they did.
pub get-put_negative :
    (c : Cache) (host other : Bytes) (ttl now t : ℕ)
    → IsUnique c.map
    → now ≤ t
    → get (put_negative c host ttl now) other t ≡ (
        if same host other
        then (if ltb t (now + ttl) then some negative else none)
        else get c other t)
unfolding put_negative fresh answer
get-put_negative c host other ttl now t u h = rw (get-put c host other _ now t u h) (ground arith)

-- A change of the cache keeps its hosts distinct.
pub put-IsUnique :
    (c : Cache) (host : Bytes) (ips : List Bytes) (ttl now : ℕ)
    → IsUnique c.map
    → IsUnique (put_positive c host ips ttl now).map × IsUnique (put_negative c host ttl now).map
unfolding put_positive put_negative put
put-IsUnique c host ips ttl now u = (
  insert-IsUnique host _ (swept c.map now) (swept-IsUnique c.map now u),
  insert-IsUnique host _ (swept c.map now) (swept-IsUnique c.map now u),
)

-- The entries that a time has not reached.
abbrev pub live : Cache → ℕ → ℕ
live c now = length (retain (λ (e : Entry). ltb now e.expires) c.map)

-- The cache grows past its soft cap only if as many entries are live: after either change it holds
-- at most the cap, or one more than were live.
pub put-bound :
    (c : Cache) (host : Bytes) (ips : List Bytes) (ttl now : ℕ)
    → (len (put_positive c host ips ttl now) ≤ max soft_cap (live c now + 1))
      × (len (put_negative c host ttl now) ≤ max soft_cap (live c now + 1))
unfolding put_positive put_negative put swept len
put-bound c host ips ttl now = elim (Bool-cases (leb soft_cap (length c.map))) [
  | inl full ↦ rw full (
    omega (
      arith,
      length-insert host (record { kind = positive ips; expires = now + clamp ttl })
          (retain (λ (e : Entry). ltb now e.expires) c.map),
    ),
    omega (
      arith,
      length-insert host (record { kind = missing; expires = now + ttl })
          (retain (λ (e : Entry). ltb now e.expires) c.map),
    ),
  )
  | inr room ↦ rw room (
    omega (
      arith,
      leb→lt soft_cap (length c.map) room,
      length-insert host (record { kind = positive ips; expires = now + clamp ttl }) c.map,
    ),
    omega (
      arith,
      leb→lt soft_cap (length c.map) room,
      length-insert host (record { kind = missing; expires = now + ttl }) c.map,
    ),
  )
]
