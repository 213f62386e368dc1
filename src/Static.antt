-- ===== src/Static.antt =====
-- crates/kernway-static/src/lib.rs, from the path of a request to a path below the root. A `PathBuf` is its root and
-- the segments that were pushed, as on Unix, where a segment without a separator is never absolute.
pub mod Safety
pub mod Negotiation
mod Tests
use kernway.Prelude.{
  ℕ, ◌+◌, ◌-◌, ◌*◌, Bool, true, false, not, ◌&&◌, ◌||◌, Option, none, some, List, [], ◌∷◌, ◌++◌,
  ltb, leb, ◌==◌, if◌then◌else◌, Bytes, codes, any, split, same, list_eq, nat_eq, is_utf8, is_empty,
}

pub data Rejected : Type 0 where
  traversal : Rejected
  dotfile : Rejected
  illegal_byte : Rejected
  bad_encoding : Rejected

pub data Outcome {ℓ} (A : Type ℓ) : Type ℓ where
  accepted : A → Outcome A
  rejected : Rejected → Outcome A

infixl 5 ◌>>=◌
abbrev pub ◌>>=◌ {ℓ κ} : {A : Type ℓ} {B : Type κ} → Outcome A → (A → Outcome B) → Outcome B
accepted a >>= k = k a
rejected r >>= k = rejected r

pub record StaticFiles : Type 0 where
  pub root : Bytes
  pub index : Bytes
  pub precompressed : Bool

abbrev pub static_files : Bytes → StaticFiles
static_files root = record { root = root; index = codes "index.html"; precompressed = false }

pub with_index : StaticFiles → Bytes → StaticFiles
with_index f name = record f { index = name }

pub with_precompressed : StaticFiles → StaticFiles
with_precompressed f = record f { precompressed = true }

pub hex_val : ℕ → Option ℕ
hex_val b =
    if leb b'0' b && leb b b'9'
    then some (b - 48)
    else if leb b'a' b && leb b b'f'
    then some (b - 97 + 10)
    else if leb b'A' b && leb b b'F'
    then some (b - 65 + 10)
    else none

abbrev pub nibbles : Option ℕ → Option ℕ → Option ℕ
nibbles none l = none
nibbles (some h) none = none
nibbles (some h) (some l) = some (h * 16 + l)

-- The loop, by the bytes that are left.
pub decode_from : Bytes → Outcome Bytes
unfolding hex_val
decode_from [] = accepted []
decode_from (c ∷ []) = if c == b'%' then rejected Rejected.bad_encoding else accepted (c ∷ [])
decode_from (c ∷ a ∷ []) = elim (c == b'%') [
  | true ↦ rejected Rejected.bad_encoding
  | false ↦ do out ← decode_from (a ∷ []); accepted (c ∷ out)
]
decode_from (c ∷ a ∷ b ∷ s) = elim (c == b'%') [
  | true ↦ elim (nibbles (hex_val a) (hex_val b)) [
    | none ↦ rejected Rejected.bad_encoding
    | some n ↦ do out ← decode_from s; accepted (n ∷ out)
  ]
  | false ↦ do out ← decode_from (a ∷ b ∷ s); accepted (c ∷ out)
]

pub percent_decode : Bytes → Outcome Bytes
unfolding decode_from
percent_decode s = if not (any (λ b. b == b'%') s) then accepted s else do
  out ← decode_from s
  if is_utf8 out then accepted out else rejected Rejected.illegal_byte

-- NUL is a control byte as well.
pub is_illegal : ℕ → Bool
is_illegal b = b == 0 || (b == 92 || (ltb b 32 || b == 127))

abbrev pub starts_dot : Bytes → Bool
starts_dot [] = false
starts_dot (c ∷ s) = c == b'.'

-- The loop over the segments, with the path so far and whether a segment was pushed.
pub inspect : List Bytes → Bool → List Bytes → Outcome (List Bytes × Bool)
inspect path named [] = accepted (path, named)
inspect path named (segment ∷ segments) = elim (is_empty segment || same segment (codes ".")) [
  | true ↦ inspect path named segments
  | false ↦ elim (same segment (codes "..")) [
    | true ↦ rejected Rejected.traversal
    | false ↦ elim (starts_dot segment) [
      | true ↦ rejected Rejected.dotfile
      | false ↦ inspect (path ++ segment ∷ []) true segments
    ]
  ]
]

abbrev pub ends_slash : Bytes → Bool
ends_slash [] = false
ends_slash (c ∷ []) = c == b'/'
ends_slash (c ∷ d ∷ s) = ends_slash (d ∷ s)

abbrev pub is_directory_request : Bytes → Bool → Bool
is_directory_request url named = ends_slash url || not named

abbrev pub served : StaticFiles → Bytes → List Bytes × Bool → Outcome (List Bytes)
served f url (path, named) =
    accepted (if is_directory_request url named then path ++ f.index ∷ [] else path)

-- The path, whose percent signs are decoded, as the segments below the root.
unfoldable pub resolve_decoded : StaticFiles → Bytes → Outcome (List Bytes)
unfolding is_illegal inspect
resolve_decoded f url =
    if any is_illegal url
    then rejected Rejected.illegal_byte
    else inspect [] false (split b'/' url) >>= served f url

unfoldable pub resolve : StaticFiles → Bytes → Outcome (List Bytes)
unfolding percent_decode resolve_decoded
resolve f url_path = do url ← percent_decode url_path; resolve_decoded f url
