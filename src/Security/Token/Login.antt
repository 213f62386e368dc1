-- ===== src/Security/Token/Login.antt =====
-- The sessions of crates/kernway-security/src/session.rs with the tokens of crates/kernway-security/src/token.rs.
use kernway.Prelude.{ℕ, ◌+◌, ◌^◌, ◌≤◌, ◌<◌, ◌≡◌, inl, Option, some, List, Bytes}
use kernway.Security.Session.{
  SessionConfig, SessionManager, Account, authenticated, saturating_add, authenticate_at, login_at,
}
use kernway.Security.Session.Memory.{Sessions, memory_store}
use kernway.Security.Session.Admission.{IsCurrent}
use kernway.Security.Session.Login.{login_claims, login-result, login-authenticate}
use kernway.Security.Token.{sign, verify}
use kernway.Security.Token.RoundTrip.{AreClean, verify-sign}

module _ (hmac_sha256 : Bytes → Bytes → Bytes) (key : Bytes) where
  -- `SessionManager::new`, and `with_accounts`.
  abbrev pub session_manager : SessionConfig → Option (Bytes → Option Account) → SessionManager
  session_manager config accounts = record {
    sign = sign hmac_sha256 key;
    verify = verify hmac_sha256 key;
    config = config;
    accounts = accounts;
  }

  -- The token that a successful login gives is admitted as its user with its roles at every later
  -- time within its lifetime and both timeouts, if the separators of a token do not cut the login's fields and
  -- the user's account is current.
  pub login-admitted :
      (config : SessionConfig) (accounts : Option (Bytes → Option Account)) (sid user : Bytes)
      (roles : List Bytes) (meta token : Bytes) (at later : ℕ) (s t : Sessions)
      → AreClean (login_claims (session_manager config accounts) sid user roles at)
      → login_at memory_store (session_manager config accounts) sid user roles meta at s
        ≡ (inl token, t)
      → at + config.token_ttl < 2 ^ 64
      → later ≤ at + config.token_ttl
      → later ≤ saturating_add at config.absolute_timeout
      → ((idle : ℕ) → config.idle_timeout ≡ some idle → later ≤ saturating_add at idle)
      → ((account : Bytes → Option Account)
          → accounts ≡ some account
          → IsCurrent account
              (login_claims (session_manager config accounts) sid user roles at)
              later)
      → (authenticate_at memory_store (session_manager config accounts) (some token) later t).0
        ≡ authenticated user roles
  login-admitted config accounts sid user roles meta token at later s t clean h word ttl young busy
        current =
      let m = session_manager config accounts in
      let (signed, _) = login-result m sid user roles meta token at s t h in
      login-authenticate m sid user roles meta token at later s t h
        (rw signed (verify-sign hmac_sha256 key (login_claims m sid user roles at) clean)) word ttl
        young busy current
