-- ===== src/Security/Session.antt =====
-- crates/kernway-security/src/session.rs: `SessionManager`, over the trait `SessionStore` taken as
-- an interface, the signed tokens of `TokenCodec` as two functions, and `AccountStatus` as one.
-- Times are seconds. An awaited store call is a step from a store state to the next; the random
-- session id that `login_at` draws is an argument.
pub mod Memory
pub mod Admission
pub mod Lifecycle
pub mod Login
pub mod Cookie
mod Tests
use kernway.Prelude.{
  ℕ, ◌+◌, ◌%◌, ◌^◌, min, Bool, true, false, not, ◌&&◌, Option, none, some, List, [], ltb, leb, ◌==◌,
  if◌then◌else◌, is_none_or, ◌⊎◌, inl, inr, ◌-◌, Bytes,
}

pub record SessionRecord : Type 0 where
  pub user : Bytes
  pub created : ℕ
  pub last_seen : ℕ
  pub meta : Bytes

pub data StoreError : Type 0 where
  backend : Bytes → StoreError

-- `Result<_, StoreError>`
pub data Result (A : Type 0) : Type 0 where
  ok : A → Result A
  err : StoreError → Result A

-- The trait: what changes the store returns its next state beside the result.
pub record SessionStore : Type 1 where
  pub State : Type 0
  pub insert : Bytes → SessionRecord → State → Result (Unit {0}) × State
  pub get : Bytes → State → Result (Option SessionRecord)
  pub touch : Bytes → ℕ → State → Result (Unit {0}) × State
  pub remove : Bytes → State → Result (Unit {0}) × State
  pub remove_user : Bytes → State → Result (Unit {0}) × State
  pub sessions_of : Bytes → State → Result (List (Bytes × SessionRecord))
  pub len : State → Result ℕ

pub record SessionConfig : Type 0 where
  pub token_ttl : ℕ
  pub absolute_timeout : ℕ
  pub idle_timeout : Option ℕ
  pub max_sessions : Option ℕ

-- `SessionConfig::default`
abbrev pub default_config : SessionConfig
default_config = record {
  token_ttl = 3600;
  absolute_timeout = 86400;
  idle_timeout = none;
  max_sessions = none;
}

pub record Account : Type 0 where
  pub active : Bool
  pub expires : Option ℕ
  pub version : ℕ

pub record Claims : Type 0 where
  pub sid : Bytes
  pub user : Bytes
  pub roles : List Bytes
  pub version : ℕ
  pub exp : ℕ

pub record SecurityContext : Type 0 where
  pub authenticated : Bool
  pub principal : Option Bytes
  pub roles : List Bytes
  pub authorities : List Bytes

-- `SecurityContext::anonymous`
abbrev pub anonymous : SecurityContext
anonymous = record { authenticated = false; principal = none; roles = []; authorities = [] }

-- `SecurityContext::authenticated`
abbrev pub authenticated : Bytes → List Bytes → SecurityContext
authenticated user roles = record {
  authenticated = true;
  principal = some user;
  roles = roles;
  authorities = [];
}

pub data LoginError : Type 0 where
  at_capacity : LoginError
  store : StoreError → LoginError

pub record SessionManager : Type 0 where
  pub sign : Claims → Bytes
  pub verify : Bytes → Option Claims
  pub config : SessionConfig
  pub accounts : Option (Bytes → Option Account)

-- `u64::saturating_add`
unfoldable pub saturating_add : ℕ → ℕ → ℕ
saturating_add a b = min (a + b) (2 ^ 64 - 1)

-- Of the account: deactivated, past its date, or of another version than the token.
pub is_invalid : Account → Claims → ℕ → Bool
is_invalid acc c at =
    not (acc.active && is_none_or (λ e. leb at e) acc.expires && acc.version == c.version)

pub is_account_ok : Option (Bytes → Option Account) → Claims → ℕ → Bool
is_account_ok none c at = true
is_account_ok (some account) c at = elim (account c.user) [
  | none ↦ false
  | some acc ↦ not (is_invalid acc c at)
]

-- The two timeouts of the record.
pub is_timed_out : SessionConfig → SessionRecord → ℕ → Bool
is_timed_out config r at =
    if ltb (saturating_add r.created config.absolute_timeout) at
    then true
    else not (is_none_or (λ idle. leb at (saturating_add r.last_seen idle)) config.idle_timeout)

-- The version that a login writes into its token.
unfoldable pub version_of : Option (Bytes → Option Account) → Bytes → ℕ
version_of none user = 0
version_of (some account) user = elim (account user) [ none ↦ 0 | some acc ↦ acc.version ]

-- The test of `max_sessions`, by what the store says of its size.
unfoldable pub has_room : Option ℕ → Result ℕ → Option LoginError
has_room none n = none
has_room (some most) (err e) = some (store e)
has_room (some most) (ok n) = if leb most n then some at_capacity else none

module _ (S : SessionStore) where
  refuse : S.State → SecurityContext × S.State
  refuse s = (anonymous, s)

  -- The end of `authenticate_at`: a session that is seen again after a minute is touched.
  welcome : Claims → SessionRecord → ℕ → S.State → SecurityContext × S.State
  welcome c r at s = (
    authenticated c.user c.roles,
    if ltb ((r.last_seen + 60) % 2 ^ 64) at then (S.touch c.sid at s).1 else s,
  )

  -- `authenticate_at` once the token is verified and in time, by what the store answers.
  admit :
      SessionManager
      → Claims
      → ℕ
      → S.State
      → Result (Option SessionRecord)
      → SecurityContext × S.State
  admit m c at s (err e) = refuse s
  admit m c at s (ok none) = refuse s
  admit m c at s (ok (some r)) =
      if is_timed_out m.config r at
      then refuse (S.remove c.sid s).1
      else if is_account_ok m.accounts c at
      then welcome c r at s
      else refuse (S.remove c.sid s).1

  pub authenticate_claims : SessionManager → Option Claims → ℕ → S.State → SecurityContext × S.State
  authenticate_claims m none at s = refuse s
  authenticate_claims m (some c) at s =
      if ltb c.exp at then refuse s else admit m c at s (S.get c.sid s)

  pub authenticate_at : SessionManager → Option Bytes → ℕ → S.State → SecurityContext × S.State
  authenticate_at m none at s = refuse s
  authenticate_at m (some token) at s = authenticate_claims m (m.verify token) at s

  -- What a login does once there is room.
  unfoldable pub open_session :
      SessionManager
      → Bytes
      → Bytes
      → List Bytes
      → Bytes
      → ℕ
      → S.State
      → (Bytes ⊎ LoginError) × S.State
  open_session m sid user roles meta at s =
      let r : SessionRecord = record { user = user; created = at; last_seen = at; meta = meta } in
      let c : Claims = record {
        sid = sid;
        user = user;
        roles = roles;
        version = version_of m.accounts user;
        exp = (at + m.config.token_ttl) % 2 ^ 64;
      } in
      let (result, s') = S.insert sid r s in
      elim result [ ok done ↦ (inl (m.sign c), s') | err e ↦ (inr (store e), s') ]

  unfoldable pub login_at :
      SessionManager
      → Bytes
      → Bytes
      → List Bytes
      → Bytes
      → ℕ
      → S.State
      → (Bytes ⊎ LoginError) × S.State
  login_at m sid user roles meta at s = elim (has_room m.config.max_sessions (S.len s)) [
    | none ↦ open_session m sid user roles meta at s
    | some e ↦ (inr e, s)
  ]

  -- `login_at` when calls of others reach the store between its size test and its insertion, where it awaits.
  unfoldable pub login_interrupted :
      (S.State → S.State)
      → SessionManager
      → Bytes
      → Bytes
      → List Bytes
      → Bytes
      → ℕ
      → S.State
      → (Bytes ⊎ LoginError) × S.State
  login_interrupted others m sid user roles meta at s =
      elim (has_room m.config.max_sessions (S.len s)) [
        | none ↦ open_session m sid user roles meta at (others s)
        | some e ↦ (inr e, others s)
      ]

  pub logout : Bytes → S.State → Result (Unit {0}) × S.State
  logout sid s = S.remove sid s

  pub logout_token : SessionManager → Bytes → S.State → Result (Unit {0}) × S.State
  logout_token m token s = elim (m.verify token) [ some c ↦ S.remove c.sid s | none ↦ (ok tt, s) ]

  pub logout_user : Bytes → S.State → Result (Unit {0}) × S.State
  logout_user user s = S.remove_user user s
