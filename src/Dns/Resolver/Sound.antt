-- ===== src/Dns/Resolver/Sound.antt =====
-- crates/kernway-dns/src/resolver.rs: where the addresses that are returned come from.
use kernway.Prelude.{
  ℕ, zero, suc, ◌≤◌, ◌≡◌, All, ◌*◌, true, List, ◌==◌, Bytes, bytes_eq, any, length,
}
use kernway.Dns.Message.{Read, ResolvedAddr}
use kernway.Dns.Cache.{second, put_positive}
use kernway.Dns.Resolver.{Resolver, cache_key, ips_of, Shard, Said, settled}
use kernway.Dns.Resolver.Query.{Matches}

-- The number is the shortest time to live among the addresses.
abbrev pub IsShortest : ℕ → List ResolvedAddr → Type 0
IsShortest ttl addrs = All (λ a. ttl ≤ a.ttl) addrs × (any (λ a. a.ttl == ttl) addrs ≡ true)

-- The state with addresses kept under a time to live, or as it was where that is zero.
abbrev pub kept_for : {W : Type 0} → (Shard W → ℕ) → Bytes → List Bytes → ℕ → Shard W → Shard W
kept_for now key ips zero s = s
kept_for now key ips (suc secs) s = record s {
  cache = put_positive s.cache key ips (suc secs * second) (now s);
}

module _ {W : Type 0} (now : Shard W → ℕ) (random_id : Shard W → ℕ × Shard W)
    (udp tcp : ℕ → Bytes → Shard W → Read Bytes × Shard W) where
  -- What the cache gained when an answer was returned.
  pub record Learned (servers : List ℕ) (name : Bytes) (qtype : ℕ) (ips : List Bytes) (t : Shard W)
      : Type 0 where
    pub server : ℕ
    pub addrs : List ResolvedAddr
    pub before : Shard W
    pub listed : any (λ x. x == server) servers ≡ true
    pub answered : Matches now random_id udp tcp server name qtype addrs
    pub some_ : 1 ≤ length addrs
    pub given : ips_of addrs ≡ ips
    pub ttl : ℕ
    pub least : IsShortest ttl addrs
    pub cached : t ≡ kept_for now (cache_key qtype name) ips ttl before

  abbrev told : Read (List Bytes) → Shard W → Said now random_id udp tcp × Shard W
  told r s = (settled r, s)
