-- ===== src/Security/Session/Lifecycle.antt =====
-- Sessions over time in the memory store of crates/kernway-security/src/session.rs. Requests run
-- concurrently, so what happens to the store is a sequence of its calls, in any interleaving.
use kernway.Prelude.{
  ℕ, ◌≡◌, ◌≢◌, refl, inl, inr, not, Option, none, some, List, [], ◌∷◌, arith, Option-cases, All,
  Bytes, bytes_eq, lookup, remove, retain, same_iff, same_refl, IsUnique, lookup-insert,
  lookup-remove, lookup-retain, insert-IsUnique, remove-IsUnique, retain-IsUnique,
}
use kernway.Security.Session.{
  SessionRecord, Claims, SessionManager, anonymous, refuse, admit, authenticate_claims,
  authenticate_at, logout, logout_user,
}
use kernway.Security.Session.Memory.{Sessions, memory_store, touched, is_of}

-- A call that changes the store.
pub data Call : Type 0 where
  insert_session : Bytes → SessionRecord → Call
  touch_session : Bytes → ℕ → Call
  remove_session : Bytes → Call
  remove_user_sessions : Bytes → Call

unfoldable pub call : Call → Sessions → Sessions
call (insert_session sid r) s = (memory_store.insert sid r s).1
call (touch_session sid at) s = (memory_store.touch sid at s).1
call (remove_session sid) s = (memory_store.remove sid s).1
call (remove_user_sessions user) s = (memory_store.remove_user user s).1

unfoldable pub calls : List Call → Sessions → Sessions
calls [] s = s
calls (c ∷ cs) s = calls cs (call c s)

-- The call does not insert under the id.
abbrev pub Avoids : Bytes → Call → Type 0
Avoids sid (insert_session j r) = j ≢ sid
Avoids sid _ = Unit

touched-none :
    (at : ℕ) (sid j : Bytes) (s : Sessions)
    → lookup j s ≡ none
    → lookup j (touched at sid (lookup sid s) s) ≡ none
unfolding touched
touched-none at sid j s h = elim (Option-cases (lookup sid s)) [
  | inl e ↦ rw e h
  | inr (r, e) ↦
      rw (e, touched, lookup-insert sid j (record r { last_seen = at }) s)
        (ground (arith, same_iff sid j))
]

touched-IsUnique :
    (at : ℕ) (sid : Bytes) (o : Option SessionRecord) (s : Sessions)
    → IsUnique s
    → IsUnique (touched at sid o s)
unfolding touched
touched-IsUnique at sid none s u = u
touched-IsUnique at sid (some r) s u = insert-IsUnique sid (record r { last_seen = at }) s u

call-IsUnique : (c : Call) (s : Sessions) → IsUnique s → IsUnique (call c s)
unfolding call
call-IsUnique (insert_session sid r) s u = insert-IsUnique sid r s u
call-IsUnique (touch_session sid at) s u = touched-IsUnique at sid (lookup sid s) s u
call-IsUnique (remove_session sid) s u = remove-IsUnique sid s u
call-IsUnique (remove_user_sessions user) s u = retain-IsUnique (λ r. not (is_of user r)) s u

call-none :
    (sid : Bytes) (c : Call) (s : Sessions)
    → IsUnique s
    → Avoids sid c
    → lookup sid s ≡ none
    → lookup sid (call c s) ≡ none
unfolding call
call-none sid (insert_session j r) s u a h =
    rw (lookup-insert j sid r s) (ground (arith, same_iff j sid))
call-none sid (touch_session j at) s u a h = touched-none at j sid s h
call-none sid (remove_session j) s u a h = rw (lookup-remove j sid s) (ground arith)
call-none sid (remove_user_sessions user) s u a h =
    rw (lookup-retain (λ r. not (is_of user r)) sid s u, h) refl

calls-none :
    (sid : Bytes) (cs : List Call) (s : Sessions)
    → IsUnique s
    → All (Avoids sid) cs
    → lookup sid s ≡ none
    → lookup sid (calls cs s) ≡ none
unfolding calls
calls-none sid [] s u a h = h
calls-none sid (c ∷ cs) s u a h =
    calls-none sid cs (call c s) (call-IsUnique c s u) a.1 (call-none sid c s u a.0 h)

-- A token whose session is gone is refused.
gone-anonymous :
    (m : SessionManager) (token : Bytes) (c : Claims) (at : ℕ) (s : Sessions)
    → m.verify token ≡ some c
    → lookup c.sid s ≡ none
    → authenticate_at memory_store m (some token) at s ≡ (anonymous, s)
unfolding authenticate_at authenticate_claims admit refuse
gone-anonymous m token c at s signed gone = rw (signed, gone) (ground arith)

-- Once a session is logged out, its token is refused at every time after any calls of the store,
-- until a login draws the same id again.
pub logout-anonymous :
    (m : SessionManager) (token : Bytes) (c : Claims) (cs : List Call) (at : ℕ) (s : Sessions)
    → IsUnique s
    → m.verify token ≡ some c
    → All (Avoids c.sid) cs
    → authenticate_at memory_store m (some token) at (calls cs (logout memory_store c.sid s).1)
      ≡ (anonymous, calls cs (logout memory_store c.sid s).1)
unfolding logout
logout-anonymous m token c cs at s u signed avoid = gone-anonymous m token c at _ signed (
    calls-none c.sid cs (remove c.sid s) (remove-IsUnique c.sid s u) avoid
      (rw (lookup-remove c.sid c.sid s, same_refl c.sid) refl))

-- Once a user is logged out everywhere, the token of every session that was the user's is refused
-- in the same way, and the sessions of others are still there.
pub logout_user-anonymous :
    (m : SessionManager) (token user : Bytes) (c : Claims) (r : SessionRecord) (cs : List Call)
    (at : ℕ) (s : Sessions)
    → IsUnique s
    → m.verify token ≡ some c
    → lookup c.sid s ≡ some r
    → All (Avoids c.sid) cs
    → (r.user ≡ user
        → authenticate_at memory_store m
            (some token)
            at
            (calls cs (logout_user memory_store user s).1)
          ≡ (anonymous, calls cs (logout_user memory_store user s).1))
      × (r.user ≢ user → lookup c.sid (logout_user memory_store user s).1 ≡ some r)
unfolding logout_user
logout_user-anonymous m token user c r cs at s u signed found avoid = (
  λ mine. gone-anonymous m token c at _ signed (
      calls-none c.sid cs (retain (λ x. not (is_of user x)) s)
        (retain-IsUnique (λ x. not (is_of user x)) s u) avoid
        (rw (lookup-retain (λ x. not (is_of user x)) c.sid s u, found)
          (ground (arith, same_iff r.user user)))),
  λ other.
      rw (lookup-retain (λ x. not (is_of user x)) c.sid s u, found)
        (ground (arith, same_iff r.user user)),
)
