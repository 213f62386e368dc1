-- ===== src/Core/Url/Forms.antt =====
-- The fields of a form in crates/kernway-core/src/url.rs, written with the encoder and read back.
use kernway.Prelude.{
  ℕ, ◌/◌, ◌%◌, ◌<◌, ◌≡◌, ◌⊎◌, refl, true, false, some, List, [], ◌∷◌, ◌++◌, append_assoc, arith,
  ◌==◌, Bytes, All, All-append, Bool-cases, inl, inr, is_utf8, split, split_once, same_refl,
  list_eq, nat_eq,
}
use kernway.Core.Url.{is_unreserved, upper_hex, percent_encode, decoded, first_field, form_field}
use kernway.Core.Url.RoundTrip.{IsByte, percent_decode-encode}

abbrev pub IsNot : ℕ → ℕ → Type 0
IsNot sep b = (b == sep) ≡ false

-- Neither separator of a form occurs.
abbrev pub IsQuiet : ℕ → Type 0
IsQuiet b = IsNot b'&' b × IsNot b'=' b

pub unreserved-IsQuiet : (b : ℕ) → is_unreserved b ≡ true → IsQuiet b
unfolding is_unreserved
unreserved-IsQuiet b h = (ground (arith, h), ground (arith, h))

hex-IsQuiet : (d : ℕ) → d < 16 → IsQuiet (upper_hex d)
unfolding upper_hex
hex-IsQuiet d h = (ground (arith, h), ground (arith, h))

percent_encode-IsQuiet : (s : Bytes) → All IsByte s → All IsQuiet (percent_encode s)
unfolding percent_encode
percent_encode-IsQuiet [] h = tt
percent_encode-IsQuiet (b ∷ s) (h, hs) = elim (Bool-cases (is_unreserved b)) [
  | inl e ↦ rw e (unreserved-IsQuiet b e, percent_encode-IsQuiet s hs)
  | inr e ↦ rw e (
    (refl, refl),
    (
      hex-IsQuiet (b / 16) (omega (arith, h)),
      (hex-IsQuiet (b % 16) (omega arith), percent_encode-IsQuiet s hs),
    ),
  )
]

pub split_once-append :
    (sep : ℕ) (x y : Bytes) → All (IsNot sep) x → split_once sep (x ++ sep ∷ y) ≡ some (x, y)
unfolding split_once
split_once-append sep [] y h = let itself : (sep == sep) ≡ true = ground arith in rw itself refl
split_once-append sep (c ∷ x) y (h, hs) = rw (h, split_once-append sep x y hs) refl

-- What ends a field: the end of the body, or a separator and more.
abbrev pub EndsField : Bytes → Type 0
EndsField [] = Unit
EndsField (c ∷ s) = c ≡ b'&'

first_piece :
    (x rest : Bytes)
    → All (IsNot b'&') x
    → EndsField rest
    → (more : List Bytes) × (split b'&' (x ++ rest) ≡ x ∷ more)
unfolding split
first_piece [] [] h e = ([], refl)
first_piece [] (c ∷ s) h e =
    let sep : (c == b'&') ≡ true = ground (arith, e) in (split b'&' s, rw sep refl)
first_piece (x ∷ xs) rest (h, hs) e =
    let (others, eq) = first_piece xs rest hs e in (others, rw (h, eq) refl)

quiet_parts :
    (sep : ℕ) (s : Bytes) → (sep ≡ b'&') ⊎ (sep ≡ b'=') → All IsQuiet s → All (IsNot sep) s
quiet_parts sep [] e h = tt
quiet_parts sep (b ∷ s) (inl e) (h, hs) = (rw e h.0, quiet_parts sep s (inl e) hs)
quiet_parts sep (b ∷ s) (inr e) (h, hs) = (rw e h.1, quiet_parts sep s (inr e) hs)

module _ (from_utf8_lossy : Bytes → Bytes)
    (lossless : (s : Bytes) → is_utf8 s ≡ true → from_utf8_lossy s ≡ s) where
  first_field-found :
      (name value : Bytes) (others : List Bytes)
      → All IsQuiet name
      → is_utf8 value ≡ true
      → All IsByte value
      → first_field from_utf8_lossy name ((name ++ (b'=' ∷ percent_encode value)) ∷ others)
        ≡ decoded value
  unfolding first_field
  first_field-found name value others quiet text bytes =
      rw
        (
          first_field,
          split_once-append b'=' name (percent_encode value)
              (quiet_parts b'=' name (inr refl) quiet),
          same_refl name,
          percent_decode-encode from_utf8_lossy lossless value text bytes,
        )
        refl

  -- A form that starts with a field, its value percent-encoded, gives that value for the field's
  -- name, whatever other fields follow. The name holds neither of the form's separators, and the
  -- value and the body are text.
  pub form_field-encode :
      (name value rest : Bytes)
      → All IsQuiet name
      → is_utf8 value ≡ true
      → All IsByte value
      → EndsField rest
      → is_utf8 (name ++ (b'=' ∷ (percent_encode value ++ rest))) ≡ true
      → form_field from_utf8_lossy (name ++ (b'=' ∷ (percent_encode value ++ rest))) name
        ≡ decoded value
  unfolding form_field
  form_field-encode name value rest quiet text bytes ends whole =
      let pair = name ++ (b'=' ∷ percent_encode value) in
      let no_sep : All (IsNot b'&') pair =
        All-append (IsNot b'&') name (b'=' ∷ percent_encode value)
          (quiet_parts b'&' name (inl refl) quiet)
          (
            refl,
            quiet_parts b'&' (percent_encode value) (inl refl) (percent_encode-IsQuiet value bytes),
          ) in
      let (others, pieces) = first_piece pair rest no_sep ends in
      rw
        (
          form_field,
          lossless (name ++ (b'=' ∷ (percent_encode value ++ rest))) whole,
          ← append_assoc name (b'=' ∷ percent_encode value) rest,
          pieces,
        )
        (first_field-found name value others quiet text bytes)
