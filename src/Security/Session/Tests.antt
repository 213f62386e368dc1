-- ===== src/Security/Session/Tests.antt =====
-- Sessions of crates/kernway-security/src/session.rs on concrete users, tokens and times. The token
-- functions stand for `TokenCodec`: the token of a session is its id.
use kernway.Prelude.{
  inr, inl, ◌≡◌, ◌≢◌, refl, split, split_once, trim, trim_start, trim_end, ◌↔◌, inl, true, none,
  some, Option, List, [], ◌∷◌, length, Bytes, bytes_eq, codes, ne_of_same, lookup, insert, remove,
  retain,
}
use mathlib.Core.Path.{subst}
use mathlib.Core.Option.{some-injective}
use kernway.Security.Session.{
  SessionRecord, SessionManager, Claims, Account, anonymous, authenticated, authenticate_claims,
  at_capacity, admit, refuse, welcome, open_session, saturating_add, is_invalid, is_account_ok,
  is_timed_out, version_of, has_room, authenticate_at, login_at, login_interrupted, logout,
  logout_user,
}
use kernway.Security.Session.Cookie.{
  set_cookie, clear_cookie, first_cookie, token_from_cookie, reconfigure,
}
use kernway.Security.Session.Memory.{Sessions, memory_store, touched}
use kernway.Security.Session.Admission.{IsCurrent, IsAdmitted, authenticate_iff}
use kernway.Security.Session.Lifecycle.{touch_session, calls, logout-anonymous}
use kernway.Security.Session.Login.{login_claims, login-capacity_race}

sessions : Unit {0}
unfolding saturating_add is_invalid is_account_ok is_timed_out version_of has_room authenticate_at
    authenticate_claims admit refuse welcome login_at open_session logout logout_user touched calls
    lookup insert remove retain
sessions = tt

abbrev sid : Bytes
sid = codes "s1"

abbrev ann : Bytes
ann = codes "ann"

abbrev bob : Bytes
bob = codes "bob"

abbrev editor : List Bytes
editor = codes "editor" ∷ []

-- One known account, and one token, for a session opened at 1000.
abbrev account : Bytes → Option Account
account user = some (record { active = true; expires = none; version = 4 })

abbrev issued : Claims
issued = record { sid = sid; user = ann; roles = editor; version = 4; exp = 4600 }

abbrev manager : SessionManager
manager = record {
  sign = λ c. c.sid;
  verify = λ token. some issued;
  config = record {
    token_ttl = 3600;
    absolute_timeout = 86400;
    idle_timeout = some 900;
    max_sessions = some 2;
  };
  accounts = some account;
}

abbrev entry : SessionRecord
entry = record { user = ann; created = 1000; last_seen = 1000; meta = [] }

abbrev opened : Sessions
opened = (sid, entry) ∷ []

requests :
    (login_at memory_store manager sid ann editor [] 1000 [] ≡ (inl sid, opened))
    × (authenticate_at memory_store manager (some sid) 1030 opened
        ≡ (authenticated ann editor, opened))
    × (authenticate_at memory_store manager (some sid) 1100 opened
        ≡ (authenticated ann editor, (sid, record entry { last_seen = 1100 }) ∷ []))
    × (authenticate_at memory_store manager (some sid) 1901 opened ≡ (anonymous, []))
    × (authenticate_at memory_store manager none 1030 opened ≡ (anonymous, opened))
unfolding sessions
requests = (refl, refl, refl, refl, refl)

authenticate_iff_example :
    ((authenticate_at memory_store manager (some sid) 1030 opened).0 ≡ authenticated ann editor)
    ↔ IsAdmitted memory_store manager sid 1030 opened ann editor
authenticate_iff_example = authenticate_iff memory_store manager sid 1030 opened ann editor

logout-anonymous_example :
    authenticate_at memory_store manager
      (some sid)
      1030
      (calls (touch_session sid 1020 ∷ []) (logout memory_store sid opened).1)
    ≡ (anonymous, calls (touch_session sid 1020 ∷ []) (logout memory_store sid opened).1)
logout-anonymous_example =
    logout-anonymous manager sid issued (touch_session sid 1020 ∷ []) 1030 opened
      (unfold lookup in (refl, tt)) refl (tt, tt)

ann_not_bob : ann ≢ bob
ann_not_bob = ne_of_same ann bob refl

ann-IsCurrent :
    (f : Bytes → Option Account)
    → some account ≡ some f
    → IsCurrent f (login_claims manager sid ann editor 1000) 1500
unfolding version_of
ann-IsCurrent f e =
    subst
      (λ (g : Bytes → Option Account). IsCurrent g (login_claims manager sid ann editor 1000) 1500)
      (some-injective _ _ e)
      (record {
        acc = record { active = true; expires = none; version = 4 };
        known = refl;
        active = refl;
        in_date = λ d x. cc x;
        version = refl;
      })

login-capacity_race_example :
    let whole = login_at memory_store manager bob bob editor [] 1000 in
    let after = login_at memory_store manager ann ann editor [] 1000 (whole opened).1 in
    let both =
      login_interrupted memory_store (λ t. (whole t).1) manager ann ann editor [] 1000 opened in
    (login_interrupted memory_store (λ t. t) manager ann ann editor [] 1000 opened
      ≡ login_at memory_store manager ann ann editor [] 1000 opened)
    × ((whole opened).0 ≡ inl bob)
    × (length (whole opened).1 ≡ 2)
    × (after ≡ (inr at_capacity, (whole opened).1))
    × (both.0 ≡ inl ann)
    × (length both.1 ≡ 3)
login-capacity_race_example =
    login-capacity_race manager ann bob ann bob editor [] 1000 2 opened refl refl
      (unfold lookup in refl) (unfold lookup in refl) ann_not_bob

-- What the browser keeps of a `Set-Cookie` is the pair before the first semicolon.
cookie-runs :
    (token_from_cookie (codes "theme=dark; kw_session=abc.def") ≡ some (codes "abc.def"))
    × (token_from_cookie (set_cookie (codes "abc.def") true) ≡ some (codes "abc.def"))
    × (token_from_cookie clear_cookie ≡ some [])
unfolding token_from_cookie first_cookie set_cookie clear_cookie split split_once trim trim_start
    trim_end
cookie-runs = (refl, refl, refl)

-- A shorter lifetime ends a session that is there.
reconfigured :
    (authenticate_at memory_store
      (reconfigure (λ c. record c { absolute_timeout = 60 }) manager)
      (some sid)
      1500
      opened).0
    ≡ anonymous
unfolding sessions reconfigure saturating_add is_invalid is_account_ok is_timed_out authenticate_at
    authenticate_claims admit refuse touched lookup remove
reconfigured = refl
