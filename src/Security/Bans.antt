-- ===== src/Security/Bans.antt =====
-- crates/kernway-security/src/tracking.rs: the ban list and the address of a client behind proxies. An
-- address is its family and its bits as a number; reading one from text, `IpAddr::from_str`, is the
-- parameter `parse_ip`. A lock around a list, `Bans`, makes each of these calls one step.
pub mod Rules
pub mod Subnets
pub mod Forwarded
mod Tests
use kernway.Prelude.{
  ℕ, ◌+◌, ◌-◌, ◌*◌, ◌/◌, ◌^◌, Bool, true, false, not, ◌&&◌, ◌||◌, Option, none, some, List, [], ◌∷◌,
  ◌++◌, ltb, leb, ◌==◌, if◌then◌else◌, Eq, discrete_eq, ℕ_discrete, any, keep, Bytes, bytes_eq,
  same, split, trim, split_once, parse_u64, lowercase,
}

pub data IpAddr : Type 0 where
  v4 : ℕ → IpAddr
  v6 : ℕ → IpAddr

pub record Cidr : Type 0 where
  pub network : IpAddr
  pub prefix : ℕ

pub data BanRule : Type 0 where
  ip : IpAddr → BanRule
  subnet : Cidr → BanRule
  user_agent_exact : Bytes → BanRule
  user_agent_contains : Bytes → BanRule
  user : Bytes → BanRule

pub ip_discrete : Discrete IpAddr
ip_discrete = hlevel ℕ_discrete

pub cidr_discrete : Discrete Cidr
cidr_discrete = hlevel (ℕ_discrete, ip_discrete)

pub rule_discrete : Discrete BanRule
rule_discrete = hlevel (ℕ_discrete, ip_discrete, cidr_discrete)

instance abbrev pub ip_eq : Eq IpAddr
ip_eq = discrete_eq ip_discrete

instance abbrev pub rule_eq : Eq BanRule
rule_eq = discrete_eq rule_discrete

pub record BanList : Type 0 where
  pub rules : List BanRule

abbrev pub no_bans : BanList
no_bans = record { rules = [] }

-- `contains`
abbrev pub contains {ℓ} : {A : Type ℓ} ⦃e : Eq A⦄ → List A → A → Bool
contains xs x = any (λ y. same y x) xs

-- `if !self.rules.contains(&rule) { self.rules.push(rule) }`
pub add_rule : BanList → BanRule → BanList
add_rule l r = if contains l.rules r then l else record { rules = l.rules ++ r ∷ [] }

-- `self.rules.retain(|r| *r != rule)`
pub remove_rule : BanList → BanRule → BanList
remove_rule l r = record { rules = keep (λ s. not (same s r)) l.rules }

pub add_ip : BanList → IpAddr → BanList
add_ip l a = add_rule l (ip a)

pub remove_ip : BanList → IpAddr → BanList
remove_ip l a = remove_rule l (ip a)

pub add_user_agent_exact : BanList → Bytes → BanList
add_user_agent_exact l agent = add_rule l (user_agent_exact agent)

pub remove_user_agent_exact : BanList → Bytes → BanList
remove_user_agent_exact l agent = remove_rule l (user_agent_exact agent)

pub add_user_agent_containing : BanList → Bytes → BanList
add_user_agent_containing l phrase = add_rule l (user_agent_contains (lowercase phrase))

pub remove_user_agent_containing : BanList → Bytes → BanList
remove_user_agent_containing l phrase = remove_rule l (user_agent_contains (lowercase phrase))

pub add_user : BanList → Bytes → BanList
add_user l name = add_rule l (user name)

pub remove_user : BanList → Bytes → BanList
remove_user l name = remove_rule l (user name)

pub clear : BanList → BanList
clear l = no_bans

pub is_user_rule : Bytes → BanRule → Bool
is_user_rule name (user u) = same u name
is_user_rule name _ = false

pub is_user_banned : BanList → Bytes → Bool
is_user_banned l name = any (is_user_rule name) l.rules

-- The bits of an address under `MAX << (width - prefix)`: all but the last ones.
pub masked : (width prefix : ℕ) → ℕ → ℕ
masked width prefix a = a / 2 ^ (width - prefix) * 2 ^ (width - prefix)

in_network : (width prefix : ℕ) → ℕ → ℕ → Bool
in_network width prefix net a =
    if prefix == 0 then true else masked width prefix net == masked width prefix a

-- Addresses of different families never match.
in_family : ℕ → IpAddr → IpAddr → Bool
in_family prefix (v4 n) (v4 a) = in_network 32 prefix n a
in_family prefix (v6 n) (v6 a) = in_network 128 prefix n a
in_family prefix _ _ = false

pub cidr_contains : Cidr → IpAddr → Bool
cidr_contains c a = in_family c.prefix c.network a

-- `str::contains`
starts_with : Bytes → Bytes → Bool
starts_with s [] = true
starts_with [] (c ∷ p) = false
starts_with (x ∷ s) (c ∷ p) = x == c && starts_with s p

has_phrase : Bytes → Bytes → Bool
has_phrase [] p = starts_with [] p
has_phrase (x ∷ s) p = starts_with (x ∷ s) p || has_phrase s p

abbrev is_some_and {ℓ} : {A : Type ℓ} → (A → Bool) → Option A → Bool
is_some_and p none = false
is_some_and p (some a) = p a

-- Whether a rule bans a request.
pub matches : Option IpAddr → Option Bytes → BanRule → Bool
matches a agent (ip banned) = is_some_and (λ b. same b banned) a
matches a agent (subnet c) = is_some_and (cidr_contains c) a
matches a agent (user_agent_exact exact) = is_some_and (λ ua. same ua exact) agent
matches a agent (user_agent_contains phrase) =
    is_some_and (λ ua. has_phrase (lowercase ua) phrase) agent
matches a agent (user u) = false

pub is_banned : BanList → Option IpAddr → Option Bytes → Bool
is_banned l a agent = any (matches a agent) l.rules

pub is_empty_list : BanList → Bool
is_empty_list l = elim l.rules [ [] ↦ true | r ∷ rs ↦ false ]

infixl 5 ◌>>=◌
abbrev ◌>>=◌ {ℓ κ} : {A : Type ℓ} {B : Type κ} → Option A → (A → Option B) → Option B
none >>= k = none
some a >>= k = k a

abbrev bits : IpAddr → ℕ
bits (v4 n) = 32
bits (v6 n) = 128

-- A prefix is no longer than the address.
with_prefix : IpAddr → Option ℕ → Option Cidr
with_prefix network none = none
with_prefix network (some p) =
    if leb p (bits network) then some (record { network = network; prefix = p }) else none

abbrev changed : BanList → (BanList → BanRule → BanList) → Option Cidr → BanList
changed l change none = l
changed l change (some c) = change l (subnet c)

-- An entry of the header, where it is the address of no trusted proxy.
abbrev untrusted : List IpAddr → Option IpAddr → Option IpAddr
untrusted trusted none = none
untrusted trusted (some a) = if contains trusted a then none else some a

abbrev pub or_else {ℓ} : {A : Type ℓ} → Option A → Option A → Option A
or_else none o = o
or_else (some a) o = some a

module _ (parse_ip : Bytes → Option IpAddr) where
  network_of : Bytes → Option (Bytes × Bytes) → Option Cidr
  network_of spec (some (addr, prefix)) = do
    network ← parse_ip (trim addr)
    with_prefix network (parse_u64 (trim prefix))
  network_of spec none = do
    network ← parse_ip (trim spec)
    some (record { network = network; prefix = bits network })

  pub parse_cidr : Bytes → Option Cidr
  parse_cidr spec = network_of spec (split_once b'/' spec)

  pub add_subnet : BanList → Bytes → BanList
  add_subnet l cidr = changed l add_rule (parse_cidr cidr)

  pub remove_subnet : BanList → Bytes → BanList
  remove_subnet l cidr = changed l remove_rule (parse_cidr cidr)

  -- The loop of `client_ip`: the entries from the right.
  pub last_untrusted : List IpAddr → List Bytes → Option IpAddr
  last_untrusted trusted [] = none
  last_untrusted trusted (entry ∷ entries) =
      or_else (last_untrusted trusted entries) (untrusted trusted (parse_ip (trim entry)))

  pub behind_proxy : List IpAddr → Option Bytes → Option IpAddr
  behind_proxy trusted none = none
  behind_proxy trusted (some forwarded) = last_untrusted trusted (split b',' forwarded)

  pub client_ip : Option IpAddr → Option Bytes → List IpAddr → Option IpAddr
  client_ip none forwarded_for trusted = none
  client_ip (some peer) forwarded_for trusted =
      if contains trusted peer
      then or_else (behind_proxy trusted forwarded_for) (some peer)
      else some peer
