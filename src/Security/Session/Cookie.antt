-- ===== src/Security/Session/Cookie.antt =====
-- The cookie of a session, and the change of the live configuration, in crates/kernway-security/src/session.rs.
use kernway.Prelude.{
  Bool, true, false, Option, none, some, List, [], ◌∷◌, ◌++◌, Bytes, codes, split, split_once, trim,
  same, list_eq, nat_eq,
}
use kernway.Security.Session.{SessionConfig, SessionManager}

abbrev pub cookie : Bytes
cookie = codes "kw_session"

unfoldable pub set_cookie : Bytes → Bool → Bytes
set_cookie token secure =
    cookie
    ++ b'='
      ∷ (token
          ++ (codes "; Path=/; HttpOnly; SameSite=Lax"
              ++ elim secure [ true ↦ codes "; Secure" | false ↦ [] ]))

unfoldable pub clear_cookie : Bytes
clear_cookie = cookie ++ codes "=; Path=/; HttpOnly; SameSite=Lax; Max-Age=0"

-- `find_map` over the pairs of the header.
unfoldable pub first_cookie : List Bytes → Option Bytes
first_cookie [] = none
first_cookie (pair ∷ pairs) = elim (split_once b'=' pair) [
  | none ↦ first_cookie pairs
  | some (k, v) ↦ elim (same (trim k) cookie) [ true ↦ some (trim v) | false ↦ first_cookie pairs ]
]

unfoldable pub token_from_cookie : Bytes → Option Bytes
unfolding first_cookie
token_from_cookie cookie_header = first_cookie (split b';' cookie_header)

unfoldable pub reconfigure : (SessionConfig → SessionConfig) → SessionManager → SessionManager
reconfigure f m = record m { config = f m.config }
