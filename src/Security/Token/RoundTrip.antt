-- ===== src/Security/Token/RoundTrip.antt =====
-- What crates/kernway-security/src/token.rs reads of the claims that it signed.
use Prim.Native.Nat.{bit_xor}
use kernway.Prelude.{
  ℕ, ◌^◌, ◌<◌, ◌≡◌, ◌≢◌, refl, ap, ◌∙◌, true, some, List, [], ◌∷◌, ◌++◌, ◌==◌, arith, Bytes, all,
  All, All-append, split, is_utf8, decimal, decimal-IsDigit, IsDigit, parse_u64-decimal,
}
use kernway.Core.Url.Forms.{IsNot, split_once-append}
use kernway.Security.Bans.Forwarded.{split-append}
use kernway.Security.Session.{Claims}
use kernway.Security.Token.{
  b64url_encode, difference, csrf_verify, sep, join_roles, encode_claims, split_roles, five_parts,
  decode_claims, sign, verify,
}
use kernway.Security.Token.Base64.{
  below, all-below, IsByte, IsPlain, b64url_encode-IsPlain, b64url_decode-encode,
}

-- A name of a role: not empty, and without the comma that joins roles and the separator of fields.
pub record IsRole (r : Bytes) : Type 0 where
  pub some_bytes : r ≢ []
  pub no_comma : All (IsNot b',') r
  pub no_sep : All (IsNot sep) r

-- Claims whose fields the separators do not cut, as a text of bytes, with numbers of 64 bits.
pub record AreClean (c : Claims) : Type 0 where
  pub sid : All (IsNot sep) c.sid
  pub user : All (IsNot sep) c.user
  pub roles : All IsRole c.roles
  pub version : c.version < 2 ^ 64
  pub exp : c.exp < 2 ^ 64
  pub bytes : All IsByte (encode_claims c)
  pub text : is_utf8 (encode_claims c) ≡ true

xor_table : all (λ x. bit_xor x x == 0) (below 128) ≡ true
unfolding below
xor_table = refl

difference-same : (s : Bytes) → All (λ b. b < 128) s → difference 0 s s ≡ 0
unfolding difference
difference-same [] h = refl
difference-same (x ∷ s) (h, hs) =
    let equal : bit_xor x x ≡ 0 =
      ground (arith, all-below (λ x. bit_xor x x == 0) 128 x xor_table h) in
    rw equal (difference-same s hs)

csrf_verify-same : (s : Bytes) → All (λ b. b < 128) s → csrf_verify s s ≡ true
unfolding csrf_verify
csrf_verify-same s h = ground (arith, difference-same s h)

plain-small : (s : Bytes) → All IsPlain s → All (λ b. b < 128) s
plain-small [] h = tt
plain-small (b ∷ s) ((_, h), hs) = (h, plain-small s hs)

plain-IsNot : (s : Bytes) → All IsPlain s → All (IsNot b'.') s
plain-IsNot [] h = tt
plain-IsNot (b ∷ s) ((h, _), hs) = (h, plain-IsNot s hs)

split-whole : (c : ℕ) (s : Bytes) → All (IsNot c) s → split c s ≡ s ∷ []
unfolding split
split-whole c [] h = refl
split-whole c (b ∷ s) (h, hs) = rw (h, split-whole c s hs) refl

split-field : (c : ℕ) (s t : Bytes) → All (IsNot c) s → split c (s ++ c ∷ t) ≡ s ∷ split c t
split-field c s t h = rw (split-append c s t, split-whole c s h) refl

digits-IsNot : (s : Bytes) → All IsDigit s → All (IsNot sep) s
digits-IsNot [] h = tt
digits-IsNot (c ∷ s) ((low, high), hs) = (ground (arith, low), digits-IsNot s hs)

join_roles-IsNot : (rs : List Bytes) → All IsRole rs → All (IsNot sep) (join_roles rs)
unfolding join_roles
join_roles-IsNot [] h = tt
join_roles-IsNot (r ∷ []) (h, hs) = h.no_sep
join_roles-IsNot (r ∷ q ∷ rs) (h, hs) =
    All-append (IsNot sep) r (b',' ∷ join_roles (q ∷ rs)) h.no_sep
      (refl, join_roles-IsNot (q ∷ rs) hs)

split-join_roles :
    (r : Bytes) (rs : List Bytes) → All IsRole (r ∷ rs) → split b',' (join_roles (r ∷ rs)) ≡ r ∷ rs
unfolding join_roles
split-join_roles r [] (h, hs) = split-whole b',' r h.no_comma
split-join_roles r (q ∷ rs) (h, hs) =
    split-field b',' r (join_roles (q ∷ rs)) h.no_comma
    ∙ ap (λ ps. r ∷ ps) (split-join_roles q rs hs)

split_roles-ne : (s : Bytes) → s ≢ [] → split_roles s ≡ split b',' s
split_roles-ne [] h = absurd (h refl)
split_roles-ne (c ∷ s) h = refl

join_roles-ne : (r : Bytes) (rs : List Bytes) → r ≢ [] → join_roles (r ∷ rs) ≢ []
unfolding join_roles
join_roles-ne [] rs h bad = h refl
join_roles-ne (c ∷ r) [] h bad = ground (arith, bad)
join_roles-ne (c ∷ r) (q ∷ rs) h bad = ground (arith, bad)

split_roles-join : (rs : List Bytes) → All IsRole rs → split_roles (join_roles rs) ≡ rs
unfolding join_roles
split_roles-join [] h = refl
split_roles-join (r ∷ rs) (h, hs) =
    split_roles-ne (join_roles (r ∷ rs)) (join_roles-ne r rs h.some_bytes)
    ∙ split-join_roles r rs (h, hs)

split-encode_claims :
    (c : Claims)
    → AreClean c
    → split sep (encode_claims c)
      ≡ c.sid ∷ c.user ∷ join_roles c.roles ∷ decimal c.version ∷ decimal c.exp ∷ []
unfolding encode_claims
split-encode_claims c h =
    rw
      (
        split-field sep c.sid
            (c.user
              ++ sep ∷ (join_roles c.roles ++ sep ∷ (decimal c.version ++ sep ∷ decimal c.exp)))
            h.sid,
        split-field sep c.user
            (join_roles c.roles ++ sep ∷ (decimal c.version ++ sep ∷ decimal c.exp)) h.user,
        split-field sep (join_roles c.roles) (decimal c.version ++ sep ∷ decimal c.exp)
            (join_roles-IsNot c.roles h.roles),
        split-field sep (decimal c.version) (decimal c.exp)
            (digits-IsNot (decimal c.version) (decimal-IsDigit c.version)),
        split-whole sep (decimal c.exp) (digits-IsNot (decimal c.exp) (decimal-IsDigit c.exp)),
      )
      refl

decode_claims-encode : (c : Claims) → AreClean c → decode_claims (encode_claims c) ≡ some c
unfolding decode_claims five_parts
decode_claims-encode c h =
    rw
      (
        decode_claims,
        h.text,
        split-encode_claims c h,
        parse_u64-decimal c.version h.version,
        parse_u64-decimal c.exp h.exp,
        split_roles-join c.roles h.roles,
      )
      refl

-- Claims that the separators do not cut are verified under the key that signed them, and are the claims that were
-- signed, whatever the MAC gives.
pub verify-sign :
    (hmac_sha256 : Bytes → Bytes → Bytes) (key : Bytes) (c : Claims)
    → AreClean c
    → verify hmac_sha256 key (sign hmac_sha256 key c) ≡ some c
unfolding verify sign
verify-sign hmac_sha256 key c h =
    let payload = b64url_encode (encode_claims c) in
    let sig = b64url_encode (hmac_sha256 key payload) in
    rw
      (
        verify,
        split_once-append b'.' payload sig
            (plain-IsNot payload (b64url_encode-IsPlain (encode_claims c))),
        csrf_verify-same sig (plain-small sig (b64url_encode-IsPlain (hmac_sha256 key payload))),
        b64url_decode-encode (encode_claims c) h.bytes,
        decode_claims-encode c h,
      )
      refl
