-- ===== src/Security/Bans/Tests.antt =====
-- The ban list and the forwarded addresses of crates/kernway-security/src/tracking.rs on small lists.
use kernway.Prelude.{
  ◌↔◌, ◌^◌, ◌-◌, arith, ◌≡◌, refl, true, false, Option, none, some, [], ◌∷◌, ◌++◌, Bytes, bytes_eq,
  codes, same, split, trim_start, trim_end, trim, split_once, parse_u64, lowercase, ℕ_discrete,
  if◌then◌else◌,
}
use kernway.Security.Bans.{
  IpAddr, v4, v6, ip_discrete, rule_discrete, user, rule_eq, ip_eq, BanList, no_bans, contains,
  add_rule, remove_rule, add_ip, remove_ip, add_user, add_user_agent_containing, is_user_rule,
  is_user_banned, masked, in_network, in_family, cidr_contains, starts_with, has_phrase, matches,
  is_banned, with_prefix, network_of, parse_cidr, add_subnet, last_untrusted, behind_proxy,
  client_ip,
}
use kernway.Security.Bans.Subnets.{InBlock, cidr_contains_iff}
use kernway.Security.Bans.Forwarded.{client_ip-append}

bans : Unit {0}
unfolding ℕ_discrete ip_discrete rule_discrete split trim_start trim_end trim split_once parse_u64
    lowercase add_rule remove_rule add_ip remove_ip add_user add_user_agent_containing is_user_rule
    is_user_banned masked in_network in_family cidr_contains starts_with has_phrase matches
    is_banned with_prefix network_of parse_cidr add_subnet last_untrusted behind_proxy client_ip
bans = tt

-- A reader of addresses that knows three.
abbrev read_ip : Bytes → Option IpAddr
read_ip s =
    if same s (codes "10.0.0.0")
    then some (v4 0x0a000000)
    else if same s (codes "10.0.0.1")
    then some (v4 0x0a000001)
    else if same s (codes "1.2.3.4")
    then some (v4 0x01020304)
    else none

abbrev listed : BanList
listed =
    add_user_agent_containing (add_subnet read_ip no_bans (codes "10.0.0.0/8")) (codes "Scraper")

blocks :
    (is_banned listed (some (v4 0x0a050607)) none ≡ true)
    × (is_banned listed (some (v4 0x0b050607)) none ≡ false)
    × (is_banned listed none (some (codes "Evil scraper 2.0")) ≡ true)
    × (is_banned listed (some (v6 0x0a050607)) (some (codes "curl")) ≡ false)
    × (is_user_banned (add_user listed (codes "a@b")) (codes "a@b") ≡ true)
    × (contains (listed.rules) (user (codes "a@b")) ≡ false)
    × (client_ip read_ip
          (some (v4 0x0a000001))
          (some (codes "6.6.6.6, 1.2.3.4 ,10.0.0.1"))
          (v4 0x0a000001 ∷ [])
        ≡ some (v4 0x01020304))
    × (last_untrusted read_ip (v4 0x0a000001 ∷ []) (split b',' (codes "1.2.3.4 ,10.0.0.1"))
        ≡ some (v4 0x01020304))
unfolding bans
blocks = (refl, refl, refl, refl, refl, refl, refl, refl)

proxy-trusted : contains (v4 0x0a000001 ∷ []) (v4 0x0a000001) ≡ true
unfolding bans
proxy-trusted = refl

client_ip-append_example :
    client_ip read_ip
      (some (v4 0x0a000001))
      (some (codes "6.6.6.6" ++ b',' ∷ codes "1.2.3.4 ,10.0.0.1"))
      (v4 0x0a000001 ∷ [])
    ≡ some (v4 0x01020304)
client_ip-append_example =
    client_ip-append read_ip (v4 0x0a000001) (v4 0x01020304) (v4 0x0a000001 ∷ []) (codes "6.6.6.6")
      (codes "1.2.3.4 ,10.0.0.1") proxy-trusted blocks.7

cidr_contains_iff_example :
    ((cidr_contains (record { network = v4 0x0a000000; prefix = 8 }) (v4 0x0a050607) ≡ true)
      ↔ InBlock (2 ^ (32 - 8)) 0x0a000000 0x0a050607)
    × ((cidr_contains (record { network = v6 5; prefix = 8 }) (v6 6) ≡ true)
        ↔ InBlock (2 ^ (128 - 8)) 5 6)
    × (cidr_contains (record { network = v4 0x0a000000; prefix = 8 }) (v6 6) ≡ false)
    × (cidr_contains (record { network = v6 5; prefix = 8 }) (v4 0x0a050607) ≡ false)
cidr_contains_iff_example =
    cidr_contains_iff 8 0x0a000000 0x0a050607 5 6 (omega arith) (omega arith) (omega arith)
      (omega arith)
