-- ===== src/Security/Session/Memory.antt =====
-- `MemorySessionStore` of crates/kernway-security/src/session.rs: the store that never fails. The lock
-- around its map serialises the calls.
use kernway.Prelude.{
  ℕ, Bool, not, Option, none, some, keep, length, Bytes, bytes_eq, Map, lookup, insert, remove,
  retain, same,
}
use kernway.Security.Session.{SessionRecord, SessionStore, ok}

abbrev pub Sessions : Type 0
Sessions = Map Bytes SessionRecord

-- `touch` through `get_mut`.
unfoldable pub touched : ℕ → Bytes → Option SessionRecord → Sessions → Sessions
touched at sid none m = m
touched at sid (some r) m = insert sid (record r { last_seen = at }) m

abbrev pub is_of : Bytes → SessionRecord → Bool
is_of user r = same r.user user

abbrev pub memory_store : SessionStore
memory_store = record {
  State = Sessions;
  insert = λ sid r m. (ok tt, insert sid r m);
  get = λ sid m. ok (lookup sid m);
  touch = λ sid at m. (ok tt, touched at sid (lookup sid m) m);
  remove = λ sid m. (ok tt, remove sid m);
  remove_user = λ user m. (ok tt, retain (λ r. not (is_of user r)) m);
  sessions_of = λ user m. ok (keep (λ entry. is_of user entry.1) m);
  len = λ m. ok (length m);
}
