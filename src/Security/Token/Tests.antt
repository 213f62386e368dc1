-- ===== src/Security/Token/Tests.antt =====
-- Tokens of crates/kernway-security/src/token.rs under a MAC that gives its key, and each theorem on one of them.

use kernway.Prelude.{
  ◌≡◌, refl, inl, none, some, [], ◌∷◌, arith, Bytes, codes, decimal, decimal_from, parse_u64,
  digits, digits_from, split, split_once, is_utf8, insert,
}
use kernway.Security.Session.{
  SessionConfig, Claims, authenticated, authenticate_at, login_at, open_session, saturating_add,
  version_of, has_room,
}
use kernway.Security.Session.Memory.{Sessions, memory_store}
use kernway.Security.Token.{
  byte_at, b64url_encode, letter_value, decode_from, b64url_decode, difference, csrf_verify,
  join_roles, encode_claims, five_parts, decode_claims, sign, verify,
}
use kernway.Security.Token.RoundTrip.{AreClean, verify-sign}
use kernway.Security.Token.Login.{session_manager, login-admitted}

abbrev echo : Bytes → Bytes → Bytes
echo key message = key

abbrev secret : Bytes
secret = codes "k"

abbrev claims : Claims
claims = record {
  sid = codes "s1";
  user = codes "ann";
  roles = codes "editor" ∷ codes "viewer" ∷ [];
  version = 0;
  exp = 4600;
}

-- A role with a comma comes back as two.
cuts_role :
    verify echo secret (sign echo secret (record claims { roles = codes "a,b" ∷ [] }))
    ≡ some (record claims { roles = codes "a" ∷ codes "b" ∷ [] })
unfolding verify sign b64url_encode byte_at b64url_decode decode_from letter_value difference
    csrf_verify join_roles encode_claims decode_claims five_parts split split_once is_utf8 decimal
    decimal_from parse_u64 digits digits_from
cuts_role = refl

rejects_forgery : verify echo secret (codes "czE.a2E") ≡ none
unfolding verify b64url_encode byte_at b64url_decode decode_from letter_value difference csrf_verify
    decode_claims five_parts split split_once is_utf8 parse_u64 digits digits_from
rejects_forgery = refl

clean : AreClean claims
unfolding encode_claims join_roles decimal decimal_from is_utf8
clean = record {
  sid = (refl, (refl, tt));
  user = (refl, (refl, (refl, tt)));
  roles = (
    record {
      some_bytes = λ bad. ground (arith, bad);
      no_comma = (refl, (refl, (refl, (refl, (refl, (refl, tt))))));
      no_sep = (refl, (refl, (refl, (refl, (refl, (refl, tt))))));
    },
    (
      record {
        some_bytes = λ bad. ground (arith, bad);
        no_comma = (refl, (refl, (refl, (refl, (refl, (refl, tt))))));
        no_sep = (refl, (refl, (refl, (refl, (refl, (refl, tt))))));
      },
      tt,
    ),
  );
  version = omega arith;
  exp = omega arith;
  bytes = omega arith;
  text = refl;
}

verify-sign_example : verify echo secret (sign echo secret claims) ≡ some claims
verify-sign_example = verify-sign echo secret claims clean

abbrev config : SessionConfig
config = record {
  token_ttl = 3600;
  absolute_timeout = 86400;
  idle_timeout = some 900;
  max_sessions = none;
}

abbrev opened : Sessions
opened =
    (codes "s1", record { user = codes "ann"; created = 1000; last_seen = 1000; meta = [] }) ∷ []

opens :
    login_at memory_store
      (session_manager echo secret config none)
      (codes "s1")
      (codes "ann")
      claims.roles
      []
      1000
      []
    ≡ (inl (sign echo secret claims), opened)
unfolding login_at open_session has_room version_of insert
opens = refl

login-admitted_example :
    (authenticate_at memory_store
      (session_manager echo secret config none)
      (some (sign echo secret claims))
      1500
      opened).0
    ≡ authenticated (codes "ann") claims.roles
unfolding saturating_add version_of
login-admitted_example =
    login-admitted echo secret config none (codes "s1") (codes "ann") claims.roles []
      (sign echo secret claims) 1000 1500 [] opened clean opens (omega arith) (omega arith)
      (omega arith) (λ idle e. ground arith) (λ f e. ground (arith, e))
