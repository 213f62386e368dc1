-- ===== src/Dns/Cache.antt =====
-- crates/kernway-dns/src/cache.rs: the cache of one shard. An `Instant` is its nanoseconds since some
-- start, so that adding a time to live does not overflow; an address is its bytes.
pub mod Answers
mod Tests
use kernway.Prelude.{
  ℕ, ◌+◌, ◌*◌, Option, none, some, List, [], ltb, leb, if◌then◌else◌, length, min, max, Bytes,
  bytes_eq, Map, lookup, insert, retain,
}

abbrev pub second : ℕ
second = 1000000000

abbrev pub min_ttl : ℕ
min_ttl = 1 * second

abbrev pub max_ttl : ℕ
max_ttl = 3600 * second

abbrev pub negative_ttl : ℕ
negative_ttl = 30 * second

abbrev pub soft_cap : ℕ
soft_cap = 1024

pub data Cached : Type 0 where
  hit : List Bytes → Cached
  negative : Cached

pub data Kind : Type 0 where
  positive : List Bytes → Kind
  missing : Kind

pub record Entry : Type 0 where
  pub kind : Kind
  pub expires : ℕ

pub record Cache : Type 0 where
  pub map : Map Bytes Entry

abbrev pub empty : Cache
empty = record { map = [] }

unfoldable pub answer : Kind → Cached
answer (positive ips) = hit ips
answer missing = negative

-- What an entry answers while it has not expired.
unfoldable pub fresh : Option Entry → ℕ → Option Cached
fresh none now = none
fresh (some e) now = if leb e.expires now then none else some (answer e.kind)

unfoldable pub get : Cache → Bytes → ℕ → Option Cached
get c host now = fresh (lookup host c.map) now

-- `Duration::clamp`
unfoldable pub clamp : ℕ → ℕ
clamp ttl = min (max ttl min_ttl) max_ttl

-- `maybe_sweep`
unfoldable pub swept : Map Bytes Entry → ℕ → Map Bytes Entry
swept m now = if leb soft_cap (length m) then retain (λ e. ltb now e.expires) m else m

-- An insertion, after the sweep.
unfoldable pub put : Cache → Bytes → Entry → ℕ → Cache
put c host e now = record { map = insert host e (swept c.map now) }

unfoldable pub put_positive : Cache → Bytes → List Bytes → ℕ → ℕ → Cache
put_positive c host ips ttl now =
    put c host (record { kind = positive ips; expires = now + clamp ttl }) now

unfoldable pub put_negative : Cache → Bytes → ℕ → ℕ → Cache
put_negative c host ttl now = put c host (record { kind = missing; expires = now + ttl }) now

pub clear : Cache → Cache
clear c = empty

pub len : Cache → ℕ
len c = length c.map
