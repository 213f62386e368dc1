-- ===== src/Security/Session/Login.antt =====
-- `login_at` of crates/kernway-security/src/session.rs over the memory store: what a login's token is
-- good for, and the limit on sessions, alone and when two logins interleave.
use kernway.Prelude.{
  ℕ, ◌+◌, ◌≤◌, ◌<◌, ◌^◌, ◌%◌, ◌≡◌, ◌≢◌, refl, sym, ap, ◌⊎◌, inl, inr, Option, none, some, List,
  arith, Option-cases, length, Bytes, bytes_eq, lookup, insert, same_refl, same_ne, ◌↔◌,
  length-insert, length-insert_new, lookup-insert,
}
use kernway.Security.Session.{
  SessionRecord, Account, ok, Claims, SessionManager, LoginError, at_capacity, authenticated,
  version_of, saturating_add, authenticate_at, open_session, has_room, login_at, login_interrupted,
}
use kernway.Security.Session.Memory.{Sessions, memory_store}
use kernway.Security.Session.Admission.{IsCurrent, authenticate_iff}

abbrev pub login_claims : SessionManager → Bytes → Bytes → List Bytes → ℕ → Claims
login_claims m sid user roles at = record {
  sid = sid;
  user = user;
  roles = roles;
  version = version_of m.accounts user;
  exp = (at + m.config.token_ttl) % 2 ^ 64;
}

abbrev pub login_record : Bytes → Bytes → ℕ → SessionRecord
login_record user meta at = record { user = user; created = at; last_seen = at; meta = meta }

pub login-result :
    (m : SessionManager) (sid user : Bytes) (roles : List Bytes) (meta token : Bytes) (at : ℕ)
    (s t : Sessions)
    → login_at memory_store m sid user roles meta at s ≡ (inl token, t)
    → (token ≡ m.sign (login_claims m sid user roles at))
      × (t ≡ insert sid (login_record user meta at) s)
unfolding login_at open_session
login-result m sid user roles meta token at s t h =
    elim (Option-cases (has_room m.config.max_sessions (ok (length s)))) [
      | inl room ↦
          let same_pair : (
            inl (m.sign (login_claims m sid user roles at)),
            insert sid (login_record user meta at) s,
          )
              ≡ (inl token, t) =
            rw (room, login_at) at h in
          (ground (arith, same_pair), ground (arith, same_pair))
      | inr (e, full) ↦ absurd (ground (arith, rw (full, login_at) at h))
    ]

-- The token of a login that succeeded is admitted as its user with its roles at every later time
-- within its lifetime and both timeouts, where it verifies and the user's account is current.
pub login-authenticate :
    (m : SessionManager) (sid user : Bytes) (roles : List Bytes) (meta token : Bytes) (at later : ℕ)
    (s t : Sessions)
    → login_at memory_store m sid user roles meta at s ≡ (inl token, t)
    → m.verify token ≡ some (login_claims m sid user roles at)
    → at + m.config.token_ttl < 2 ^ 64
    → later ≤ at + m.config.token_ttl
    → later ≤ saturating_add at m.config.absolute_timeout
    → ((idle : ℕ) → m.config.idle_timeout ≡ some idle → later ≤ saturating_add at idle)
    → ((account : Bytes → Option Account)
        → m.accounts ≡ some account
        → IsCurrent account (login_claims m sid user roles at) later)
    → (authenticate_at memory_store m (some token) later t).0 ≡ authenticated user roles
login-authenticate m sid user roles meta token at later s t h signed word ttl young busy current =
    let (_, stored) = login-result m sid user roles meta token at s t h in
    (authenticate_iff memory_store m token later t user roles).1 (record {
      claims = login_claims m sid user roles at;
      signed = signed;
      in_time = omega arith;
      entry = login_record user meta at;
      found = rw (stored, lookup-insert sid sid (login_record user meta at) s, same_refl sid) refl;
      young = young;
      busy = busy;
      current = current;
      named = refl;
      granted = refl;
    })

-- With a limit on sessions, a login that no other interleaves with is refused for capacity exactly
-- when the limit is reached, and then changes nothing; it never takes the store past the limit.
pub login-capacity :
    (m : SessionManager) (sid user : Bytes) (roles : List Bytes) (meta : Bytes) (at most : ℕ)
    (s : Sessions)
    → m.config.max_sessions ≡ some most
    → ((login_at memory_store m sid user roles meta at s ≡ (inr at_capacity, s))
        ↔ (most ≤ length s))
      × (length s ≤ most → length (login_at memory_store m sid user roles meta at s).1 ≤ most)
unfolding login_at open_session has_room
login-capacity m sid user roles meta at most s limit = rw limit (
  (λ h. ground arith, λ h. ground arith),
  λ h. ground (arith, length-insert sid (login_record user meta at) s),
)

login_room :
    (m : SessionManager) (sid user : Bytes) (roles : List Bytes) (meta : Bytes) (at : ℕ)
    (s : Sessions)
    → has_room m.config.max_sessions (ok (length s)) ≡ none
    → login_at memory_store m sid user roles meta at s
      ≡ (inl (m.sign (login_claims m sid user roles at)), insert sid (login_record user meta at) s)
unfolding login_at open_session
login_room m sid user roles meta at s room = rw (room, login_at) refl

login_full :
    (m : SessionManager) (sid user : Bytes) (roles : List Bytes) (meta : Bytes) (at : ℕ)
    (s : Sessions)
    → has_room m.config.max_sessions (ok (length s)) ≡ some at_capacity
    → login_at memory_store m sid user roles meta at s ≡ (inr at_capacity, s)
unfolding login_at
login_full m sid user roles meta at s full = rw (full, login_at) refl

interrupted_room :
    (others : Sessions → Sessions) (m : SessionManager) (sid user : Bytes) (roles : List Bytes)
    (meta : Bytes) (at : ℕ) (s : Sessions)
    → has_room m.config.max_sessions (ok (length s)) ≡ none
    → login_interrupted memory_store others m sid user roles meta at s ≡ (
      inl (m.sign (login_claims m sid user roles at)),
      insert sid (login_record user meta at) (others s),
    )
unfolding login_interrupted open_session
interrupted_room others m sid user roles meta at s room = rw (room, login_interrupted) refl

interrupted-login :
    (m : SessionManager) (sid user : Bytes) (roles : List Bytes) (meta : Bytes) (at : ℕ)
    (s : Sessions)
    → login_interrupted memory_store (λ t. t) m sid user roles meta at s
      ≡ login_at memory_store m sid user roles meta at s
unfolding login_interrupted login_at
interrupted-login m sid user roles meta at s = refl

-- With one place left, a login is let in and takes it, and a second that comes after is refused for
-- capacity. But the size test and the insertion are two calls of the store: where the second runs as a whole
-- between those of the first, both are let in, and the store holds one session more than the limit.
pub login-capacity_race :
    (m : SessionManager) (a b ann bob : Bytes) (roles : List Bytes) (meta : Bytes) (at most : ℕ)
    (s : Sessions)
    → m.config.max_sessions ≡ some most
    → length s + 1 ≡ most
    → lookup a s ≡ none
    → lookup b s ≡ none
    → a ≢ b
    → let whole = login_at memory_store m b bob roles meta at in
      let after = login_at memory_store m a ann roles meta at (whole s).1 in
      let both = login_interrupted memory_store (λ t. (whole t).1) m a ann roles meta at s in
      (login_interrupted memory_store (λ t. t) m a ann roles meta at s
        ≡ login_at memory_store m a ann roles meta at s)
      × ((whole s).0 ≡ inl (m.sign (login_claims m b bob roles at)))
      × (length (whole s).1 ≡ most)
      × (after ≡ (inr at_capacity, (whole s).1))
      × (both.0 ≡ inl (m.sign (login_claims m a ann roles at)))
      × (length both.1 ≡ most + 1)
login-capacity_race m a b ann bob roles meta at most s limit one ha hb ne =
    let r = login_record bob meta at in
    let q = login_record ann meta at in
    let grown : length (insert b r s) ≡ length s + 1 = length-insert_new b r s hb in
    let absent : lookup a (insert b r s) ≡ none =
      rw (lookup-insert b a r s, same_ne b a (λ e. ne (sym e))) ha in
    let free : has_room m.config.max_sessions (ok (length s)) ≡ none =
      unfold has_room in rw limit (ground arith) in
    let full : has_room m.config.max_sessions (ok (length (insert b r s))) ≡ some at_capacity =
      unfold has_room in rw limit (ground (arith, grown)) in
    let whole = login_room m b bob roles meta at s free in
    rw (whole, login_full m a ann roles meta at (insert b r s) full)
      (
        interrupted-login m a ann roles meta at s,
        refl,
        omega (arith, grown),
        refl,
        ap (λ (p : (Bytes ⊎ LoginError) × Sessions). p.0)
            (interrupted_room _ m a ann roles meta at s free),
        rw (interrupted_room _ m a ann roles meta at s free, whole)
            (omega (arith, grown, length-insert_new a q (insert b r s) absent)),
      )
