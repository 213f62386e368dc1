-- ===== src/Security/Session/Admission.antt =====
-- Whom `authenticate_at` admits, whatever the store: the conditions as a record, and that the code
-- decides them.
use kernway.Prelude.{
  ℕ, ◌≤◌, ◌≡◌, refl, ◌↔◌, inl, inr, true, false, Option, none, some, List, arith, ltb, leb, le→ltb,
  is_none_or_intro, Bytes, Bool-cases, Option-cases,
}
use kernway.Security.Session.{
  SessionRecord, Result, ok, err, SessionStore, SessionConfig, Account, Claims, SessionManager,
  authenticated, saturating_add, is_invalid, is_account_ok, is_timed_out, refuse, welcome, admit,
  authenticate_claims, authenticate_at,
}

-- The account of the token's user exists, is active and in time, and has the token's version.
pub record IsCurrent (account : Bytes → Option Account) (c : Claims) (at : ℕ) : Type 0 where
  pub acc : Account
  pub known : account c.user ≡ some acc
  pub active : acc.active ≡ true
  pub in_date : (e : ℕ) → acc.expires ≡ some e → at ≤ e
  pub version : acc.version ≡ c.version

-- Why a request with this token is that of the user with the roles.
pub record IsAdmitted (S : SessionStore) (m : SessionManager) (token : Bytes) (at : ℕ) (s : S.State)
    (user : Bytes) (roles : List Bytes) : Type 0 where
  pub claims : Claims
  pub signed : m.verify token ≡ some claims
  pub in_time : at ≤ claims.exp
  pub entry : SessionRecord
  pub found : S.get claims.sid s ≡ ok (some entry)
  pub young : at ≤ saturating_add entry.created m.config.absolute_timeout
  pub busy :
      (idle : ℕ) → m.config.idle_timeout ≡ some idle → at ≤ saturating_add entry.last_seen idle
  pub current :
      (account : Bytes → Option Account) → m.accounts ≡ some account → IsCurrent account claims at
  pub named : user ≡ claims.user
  pub granted : roles ≡ claims.roles

timed_out_sound :
    (config : SessionConfig) (r : SessionRecord) (at : ℕ)
    → is_timed_out config r at ≡ false
    → (at ≤ saturating_add r.created config.absolute_timeout)
      × ((idle : ℕ) → config.idle_timeout ≡ some idle → at ≤ saturating_add r.last_seen idle)
unfolding is_timed_out
timed_out_sound config r at h = (ground arith, λ idle e. ground arith)

timed_out_complete :
    (config : SessionConfig) (r : SessionRecord) (at : ℕ)
    → at ≤ saturating_add r.created config.absolute_timeout
    → ((idle : ℕ) → config.idle_timeout ≡ some idle → at ≤ saturating_add r.last_seen idle)
    → is_timed_out config r at ≡ false
unfolding is_timed_out
timed_out_complete config r at young busy = elim (Option-cases config.idle_timeout) [
  | inl e ↦ rw e (ground arith)
  | inr (idle, e) ↦ rw e (ground (arith, busy idle e))
]

IsCurrent-sound :
    (account : Bytes → Option Account) (c : Claims) (at : ℕ)
    → is_account_ok (some account) c at ≡ true
    → IsCurrent account c at
unfolding is_account_ok is_invalid
IsCurrent-sound account c at h = elim (Option-cases (account c.user)) [
  | inl e ↦ absurd (ground (arith, e))
  | inr (a, e) ↦ record {
    acc = a;
    known = e;
    active = ground arith;
    in_date = λ d expires. ground arith;
    version = ground arith;
  }
]

IsCurrent-complete :
    (account : Bytes → Option Account) (c : Claims) (at : ℕ)
    → IsCurrent account c at
    → is_account_ok (some account) c at ≡ true
unfolding is_account_ok is_invalid
IsCurrent-complete account c at h = ground (
  arith,
  h.known,
  h.active,
  h.version,
  is_none_or_intro (λ e. leb at e) h.acc.expires (λ e x. ground (arith, h.in_date e x)),
)

module _ (S : SessionStore) (m : SessionManager) (token : Bytes) (at : ℕ) (s : S.State) where
  admit_sound :
      (c : Claims) (got : Result (Option SessionRecord)) (user : Bytes) (roles : List Bytes)
      → m.verify token ≡ some c
      → at ≤ c.exp
      → S.get c.sid s ≡ got
      → (admit S m c at s got).0 ≡ authenticated user roles
      → IsAdmitted S m token at s user roles
  unfolding admit refuse welcome
  admit_sound c (err e) user roles signed in_time found h = cc
  admit_sound c (ok none) user roles signed in_time found h = cc
  admit_sound c (ok (some r)) user roles signed in_time found h =
      let fresh : is_timed_out m.config r at ≡ false = ground arith in
      let known : is_account_ok m.accounts c at ≡ true = ground arith in
      let (young, busy) = timed_out_sound m.config r at fresh in
      record {
        claims = c;
        signed = signed;
        in_time = in_time;
        entry = r;
        found = found;
        young = young;
        busy = busy;
        current = λ account e. IsCurrent-sound account c at (rw e at known);
        named = ground arith;
        granted = ground arith;
      }

  claims_sound :
      (got : Option Claims) (user : Bytes) (roles : List Bytes)
      → m.verify token ≡ got
      → (authenticate_claims S m got at s).0 ≡ authenticated user roles
      → IsAdmitted S m token at s user roles
  unfolding authenticate_claims refuse
  claims_sound none user roles signed h = cc
  claims_sound (some c) user roles signed h = elim (Bool-cases (ltb c.exp at)) [
    | inl late ↦ absurd (ground (arith, h, late))
    | inr in_time ↦
        admit_sound c (S.get c.sid s) user roles signed (ground arith) refl (rw in_time at h)
  ]

  admitted_complete :
      (user : Bytes) (roles : List Bytes)
      → IsAdmitted S m token at s user roles
      → (authenticate_at S m (some token) at s).0 ≡ authenticated user roles
  unfolding authenticate_at authenticate_claims admit welcome
  admitted_complete user roles a =
      let fresh = timed_out_complete m.config a.entry at a.young a.busy in
      let known : is_account_ok m.accounts a.claims at ≡ true = accounts_complete in
      rw (a.signed, le→ltb a.claims.exp at a.in_time, a.found, fresh, known)
        (ground (arith, a.named, a.granted))
    where
      accounts_complete : is_account_ok m.accounts a.claims at ≡ true
      accounts_complete = elim (Option-cases m.accounts) [
        | inl e ↦ rw e (unfold is_account_ok in refl)
        | inr (account, e) ↦ rw e (IsCurrent-complete account a.claims at (a.current account e))
      ]

  -- A request with a token is admitted as the user with the roles exactly when the token is signed
  -- and in time, its session is in the store and within both timeouts, and, where accounts are
  -- checked, the user's account is current. The user and the roles are those of the token.
  pub authenticate_iff :
      (user : Bytes) (roles : List Bytes)
      → ((authenticate_at S m (some token) at s).0 ≡ authenticated user roles)
        ↔ IsAdmitted S m token at s user roles
  unfolding authenticate_at
  authenticate_iff user roles =
      (claims_sound (m.verify token) user roles refl, admitted_complete user roles)
