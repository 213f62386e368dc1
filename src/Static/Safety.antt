-- ===== src/Static/Safety.antt =====
-- Which files a request reaches in crates/kernway-static/src/lib.rs.
use kernway.Prelude.{
  ℕ, ◌≤◌, ◌≡◌, ◌≢◌, ◌⊎◌, inl, inr, refl, Bool, true, false, ◌||◌, List, [], ◌∷◌, ◌++◌, arith, ◌==◌,
  Bytes, codes, any, split, push_head, same, list_eq, nat_eq, is_empty, All, All-append, Bool-cases,
}
use kernway.Static.{
  StaticFiles, Outcome, accepted, rejected, ◌>>=◌, percent_decode, is_illegal, starts_dot, inspect,
  is_directory_request, served, resolve_decoded, resolve,
}

-- A byte that may stand in the name of a file: no control byte, no backslash and no separator.
pub record IsNameByte (b : ℕ) : Type 0 where
  pub printable : 32 ≤ b
  pub no_delete : b ≢ 127
  pub no_backslash : b ≢ 92
  pub no_separator : b ≢ b'/'

-- A name that stays in its directory and is not hidden.
pub record IsSafe (segment : Bytes) : Type 0 where
  pub some_bytes : segment ≢ []
  pub bytes : All IsNameByte segment
  pub visible : (rest : Bytes) → segment ≢ b'.' ∷ rest

name_byte : (b : ℕ) → is_illegal b ≡ false → (b == b'/') ≡ false → IsNameByte b
unfolding is_illegal
name_byte b h e = record {
  printable = ground (arith, h);
  no_delete = λ bad. ground (arith, h, bad);
  no_backslash = λ bad. ground (arith, h, bad);
  no_separator = λ bad. ground (arith, e, bad);
}

no_dot : (segment : Bytes) → starts_dot segment ≡ false → (rest : Bytes) → segment ≢ b'.' ∷ rest
no_dot [] h rest bad = ground (arith, bad)
no_dot (c ∷ s) h rest bad = let same_byte : c ≡ b'.' = cc in ground (arith, h, same_byte)

push_head-IsNameByte :
    (b : ℕ) (pieces : List Bytes)
    → IsNameByte b
    → All (All IsNameByte) pieces
    → All (All IsNameByte) (push_head b pieces)
push_head-IsNameByte b [] h hs = ((h, tt), tt)
push_head-IsNameByte b (p ∷ pieces) h (hp, hs) = ((h, hp), hs)

split-IsNameByte : (s : Bytes) → any is_illegal s ≡ false → All (All IsNameByte) (split b'/' s)
unfolding split
split-IsNameByte [] h = (tt, tt)
split-IsNameByte (b ∷ s) h =
    let rest = split-IsNameByte s (ground (arith, h)) in
    elim (Bool-cases (b == b'/')) [
      | inl e ↦ rw e (tt, rest)
      | inr e ↦
          rw e (push_head-IsNameByte b (split b'/' s) (name_byte b (ground (arith, h)) e) rest)
    ]

unnamed-≢ :
    (segment : Bytes) → (is_empty segment || same segment (codes ".")) ≡ false → segment ≢ []
unnamed-≢ [] h bad = ground (arith, h)
unnamed-≢ (c ∷ s) h bad = ground (arith, bad)

inspect_same :
    (path found : List Bytes) (named flag : Bool)
    → ◌≡◌ {A = Outcome (List Bytes × Bool)} (accepted (path, named)) (accepted (found, flag))
    → path ≡ found
inspect_same path found named flag h = cc

inspect-IsSafe :
    (path segments found : List Bytes) (named flag : Bool)
    → All IsSafe path
    → All (All IsNameByte) segments
    → inspect path named segments ≡ accepted (found, flag)
    → All IsSafe found
unfolding inspect
inspect-IsSafe path [] found named flag safe bytes h =
    rw (inspect_same path found named flag h) at safe
inspect-IsSafe path (segment ∷ segments) found named flag safe (b, bs) h =
    elim (Bool-cases (is_empty segment || same segment (codes "."))) [
      | inl e ↦ inspect-IsSafe path segments found named flag safe bs (rw (inspect, e) at h)
      | inr e ↦ elim (Bool-cases (same segment (codes ".."))) [
        | inl e2 ↦ let x = rw (inspect, e, e2) at h in absurd (ground (arith, x))
        | inr e2 ↦ elim (Bool-cases (starts_dot segment)) [
          | inl e3 ↦ let x = rw (inspect, e, e2, e3) at h in absurd (ground (arith, x))
          | inr e3 ↦
              inspect-IsSafe (path ++ segment ∷ []) segments found true flag
                (All-append IsSafe path (segment ∷ []) safe (
                  record {
                    some_bytes = unnamed-≢ segment e;
                    bytes = b;
                    visible = no_dot segment e3;
                  },
                  tt,
                ))
                bs (rw (inspect, e, e2, e3) at h)
        ]
      ]
    ]

accepted_inj : (path found : List Bytes) → accepted path ≡ accepted found → found ≡ path
accepted_inj path found h = cc

-- What is accepted was accepted before each step that followed.
accepted-bind :
    {A B : Type 0} (m : Outcome A) (k : A → Outcome B) (b : B)
    → (m >>= k) ≡ accepted b
    → (a : A) × ((m ≡ accepted a) × (k a ≡ accepted b))
accepted-bind (accepted a) k b h = (a, (refl, h))
accepted-bind (rejected r) k b h = absurd (ground (arith, h))

served-Names :
    (f : StaticFiles) (url : Bytes) (names path : List Bytes) (named : Bool)
    → All IsSafe names
    → served f url (names, named) ≡ accepted path
    → (names : List Bytes) × All IsSafe names × ((path ≡ names) ⊎ (path ≡ names ++ f.index ∷ []))
served-Names f url names path named safe h = elim (Bool-cases (is_directory_request url named)) [
  | inl e ↦ let x = rw e at h in (names, safe, inr (accepted_inj (names ++ f.index ∷ []) path x))
  | inr e ↦ let x = rw e at h in (names, safe, inl (accepted_inj names path x))
]

resolve_decoded-IsSafe :
    (f : StaticFiles) (url : Bytes) (path : List Bytes)
    → resolve_decoded f url ≡ accepted path
    → (names : List Bytes) × All IsSafe names × ((path ≡ names) ⊎ (path ≡ names ++ f.index ∷ []))
unfolding resolve_decoded
resolve_decoded-IsSafe f url path h = elim (Bool-cases (any is_illegal url)) [
  | inl e ↦ let x = rw (resolve_decoded, e) at h in absurd (ground (arith, x))
  | inr e ↦
      let ((found, named), (inspected, rest)) =
        accepted-bind (inspect [] false (split b'/' url)) (served f url) path
          (rw (resolve_decoded, e) at h) in
      served-Names f url found path named
        (inspect-IsSafe [] (split b'/' url) found false named tt (split-IsNameByte url e) inspected)
        rest
]

-- A path that is served is made of names that are not empty, hold no separator, no backslash and no
-- control byte and do not start with a dot, with the index file's name behind them or not.
pub resolve-IsSafe :
    (f : StaticFiles) (url_path : Bytes) (path : List Bytes)
    → resolve f url_path ≡ accepted path
    → (names : List Bytes) × All IsSafe names × ((path ≡ names) ⊎ (path ≡ names ++ f.index ∷ []))
unfolding resolve
resolve-IsSafe f url_path path h =
    let (url, (from_escapes, rest)) =
      accepted-bind (percent_decode url_path) (resolve_decoded f) path h in
    resolve_decoded-IsSafe f url path rest
