-- ===== src/Leaf/Eval/Queries.antt =====
-- The query of a URL in crates/kernleaf/src/expr.rs, read by the decoder of crates/kernway-core/src/url.rs.
use kernway.Prelude.{
  ℕ, ◌/◌, ◌%◌, ◌<◌, ◌≡◌, refl, ap, sym, append-nil, true, false, Bool-cases, inl, inr, ◌==◌, List,
  [], ◌∷◌, ◌++◌, append_assoc, arith, Bytes, All, All-append, is_utf8, is_utf8-ascii,
}
use kernway.Orm.Ordered.{has_prefix, contains_text}
use kernway.Core.Url.{is_unreserved, upper_hex, percent_encode, decoded, form_field}
use kernway.Core.Url.RoundTrip.{IsByte}
use kernway.Core.Url.Forms.{IsNot, IsQuiet, EndsField, unreserved-IsQuiet, form_field-encode}
use kernway.Leaf.Eval.{url_encode, slot, fill_url, query_text, build_url}

-- The two encoders of the framework agree.
pub url_encode-percent_encode : (s : Bytes) → url_encode s ≡ percent_encode s
unfolding url_encode percent_encode
url_encode-percent_encode [] = refl
url_encode-percent_encode (b ∷ s) = rw (url_encode-percent_encode s) refl

url_encode-kept : (s : Bytes) → All (λ b. is_unreserved b ≡ true) s → url_encode s ≡ s
unfolding url_encode
url_encode-kept [] h = refl
url_encode-kept (b ∷ s) (h, hs) = rw (h, url_encode-kept s hs) refl

abbrev IsAscii : ℕ → Type 0
IsAscii b = b < 0x80

kept-IsAscii : (b : ℕ) → is_unreserved b ≡ true → IsAscii b
unfolding is_unreserved
kept-IsAscii b h = ground (arith, h)

digit-IsAscii : (d : ℕ) → d < 16 → IsAscii (upper_hex d)
unfolding upper_hex
digit-IsAscii d h = ground (arith, h)

url_encode-IsAscii : (s : Bytes) → All IsByte s → All IsAscii (url_encode s)
unfolding url_encode
url_encode-IsAscii [] h = tt
url_encode-IsAscii (b ∷ s) (h, hs) = elim (Bool-cases (is_unreserved b)) [
  | inl e ↦ rw e (kept-IsAscii b e, url_encode-IsAscii s hs)
  | inr e ↦ rw e (
    omega arith,
    (
      digit-IsAscii (b / 16) (omega (arith, h)),
      (digit-IsAscii (b % 16) (omega arith), url_encode-IsAscii s hs),
    ),
  )
]

-- Names and texts that are bytes.
abbrev pub AreBytes : List (Bytes × Bytes) → Type 0
AreBytes [] = Unit
AreBytes ((k, v) ∷ ps) = All IsByte k × All IsByte v × AreBytes ps

query_text-IsAscii : (ps : List (Bytes × Bytes)) → AreBytes ps → All IsAscii (query_text b'&' ps)
unfolding query_text
query_text-IsAscii [] h = tt
query_text-IsAscii ((k, v) ∷ ps) (h, g, hs) = (
  omega arith,
  All-append IsAscii (url_encode k) (b'=' ∷ (url_encode v ++ query_text b'&' ps))
      (url_encode-IsAscii k h)
      (
        omega arith,
        All-append IsAscii (url_encode v) (query_text b'&' ps) (url_encode-IsAscii v g)
            (query_text-IsAscii ps hs),
      ),
)

query_text-EndsField : (ps : List (Bytes × Bytes)) → EndsField (query_text b'&' ps)
unfolding query_text
query_text-EndsField [] = tt
query_text-EndsField ((k, v) ∷ ps) = refl

contains_text-slot : (name s : Bytes) → All (IsNot b'{') s → contains_text (slot name) s ≡ false
unfolding contains_text has_prefix
contains_text-slot name [] h = refl
contains_text-slot name (c ∷ s) (h, hs) =
    let other : (b'{' == c) ≡ false = ground (arith, h) in
    rw (other, contains_text-slot name s hs) refl

fill_url-plain :
    (params : List (Bytes × Bytes)) (url : Bytes) (query : List (Bytes × Bytes))
    → All (IsNot b'{') url
    → fill_url params url query ≡ (url, query ++ params)
unfolding fill_url
fill_url-plain [] url query h = ap (λ q. (url, q)) (sym (append-nil query))
fill_url-plain ((name, val) ∷ params) url query h =
    rw
      (
        fill_url,
        contains_text-slot name url h,
        fill_url-plain params url (query ++ (name, val) ∷ []) h,
      )
      (ap (λ q. (url, q)) (append_assoc query ((name, val) ∷ []) params))

kept-IsQuiet : (s : Bytes) → All (λ b. is_unreserved b ≡ true) s → All IsQuiet s
kept-IsQuiet [] h = tt
kept-IsQuiet (b ∷ s) (h, hs) = (unreserved-IsQuiet b h, kept-IsQuiet s hs)

kept_text-IsAscii : (s : Bytes) → All (λ b. is_unreserved b ≡ true) s → All IsAscii s
kept_text-IsAscii [] h = tt
kept_text-IsAscii (b ∷ s) (h, hs) = (kept-IsAscii b h, kept_text-IsAscii s hs)

-- What follows the question mark.
abbrev body_of : Bytes → Bytes → List (Bytes × Bytes) → Bytes
body_of name value params = name ++ b'=' ∷ (percent_encode value ++ query_text b'&' params)

body_of-IsAscii :
    (name value : Bytes) (params : List (Bytes × Bytes))
    → All (λ b. is_unreserved b ≡ true) name
    → All IsByte value
    → AreBytes params
    → All IsAscii (body_of name value params)
body_of-IsAscii name value params kept bytes others =
    let encoded : All IsAscii (percent_encode value) =
      rw (← url_encode-percent_encode value) (url_encode-IsAscii value bytes) in
    All-append IsAscii name (b'=' ∷ (percent_encode value ++ query_text b'&' params))
      (kept_text-IsAscii name kept)
      (
        omega arith,
        All-append IsAscii (percent_encode value) (query_text b'&' params) encoded
            (query_text-IsAscii params others),
      )

build_url-plain :
    (context_path base name value : Bytes) (params : List (Bytes × Bytes))
    → All (IsNot b'{') base
    → All (λ b. is_unreserved b ≡ true) name
    → build_url context_path base ((name, value) ∷ params)
      ≡ context_path ++ (base ++ b'?' ∷ body_of name value params)
unfolding build_url query_text
build_url-plain context_path base name value params plain kept =
    rw
      (
        build_url,
        fill_url-plain ((name, value) ∷ params) base [] plain,
        url_encode-kept name kept,
        url_encode-percent_encode value,
      )
      refl

module _ (from_utf8_lossy : Bytes → Bytes)
    (lossless : (s : Bytes) → is_utf8 s ≡ true → from_utf8_lossy s ≡ s) where
  -- An address without a brace, with a parameter whose name needs no encoding and whose value is a text, is built to the
  -- address and a query, from which the decoder reads that value under that name.
  pub build_url-form_field :
      (context_path base name value : Bytes) (params : List (Bytes × Bytes))
      → All (IsNot b'{') base
      → All (λ b. is_unreserved b ≡ true) name
      → All IsByte value
      → is_utf8 value ≡ true
      → AreBytes params
      → (body : Bytes) × (build_url context_path base ((name, value) ∷ params)
          ≡ context_path ++ (base ++ b'?' ∷ body))
        × (form_field from_utf8_lossy body name ≡ decoded value)
  build_url-form_field context_path base name value params plain kept bytes text others = (
    body_of name value params,
    build_url-plain context_path base name value params plain kept,
    form_field-encode from_utf8_lossy lossless name value (query_text b'&' params)
        (kept-IsQuiet name kept) text bytes (query_text-EndsField params)
        (is_utf8-ascii (body_of name value params)
          (body_of-IsAscii name value params kept bytes others)),
  )
