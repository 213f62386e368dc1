-- ===== src/Server/Router/Peeling.antt =====
-- crates/kernway-server/src/router.rs: the walk peels the segments off the path that `segments` splits
-- off the pattern, and its fuel is enough.
use kernway.Prelude.{
  ℕ, zero, suc, ◌≤◌, ◌<◌, ◌≡◌, refl, ap, sym, ◌∙◌, Bool, true, false, not, Option, List, [], ◌∷◌,
  arith, ◌==◌, Bool-cases, inl, inr, keep, length, Bytes, bytes_eq, is_empty, split,
}
use mathlib.Core.Path.{fun_ext}
use kernway.Server.Router.{Node, Params, Walk, segments, trim_slashes, cut, descend, endpoint, walk}

abbrev is_word : Bytes → Bool
is_word s = not (is_empty s)

cut-split :
    (p : Bytes)
    → (ws : List Bytes) × (split b'/' p ≡ (cut p).0 ∷ ws) × (keep is_word ws ≡ segments (cut p).1)
unfolding split cut segments
cut-split [] = ([], refl, refl)
cut-split (c ∷ s) = elim (Bool-cases (c == b'/')) [
  | inl e ↦ (split b'/' s, rw e refl, rw e refl)
  | inr e ↦ let (ws, here, rest) = cut-split s in (ws, rw (e, here) refl, rw e rest)
]

-- Leading slashes do not change the segments.
segments-trim : (p : Bytes) → segments (trim_slashes p) ≡ segments p
unfolding segments trim_slashes
segments-trim [] = refl
segments-trim (c ∷ s) = elim (Bool-cases (c == b'/')) [
  | inl e ↦ rw e (segments-trim s ∙ unfold split in rw e refl)
  | inr e ↦ rw e refl
]

trim_starts :
    (p : Bytes) → (is_empty (trim_slashes p) ≡ false) → is_word (cut (trim_slashes p)).0 ≡ true
unfolding trim_slashes cut
trim_starts [] h = cc
trim_starts (c ∷ s) h = elim (Bool-cases (c == b'/')) [
  | inl e ↦ rw e (trim_starts s (rw e at h))
  | inr e ↦ rw (e, e) refl
]

-- A path that is not all slashes has a first segment, and those of the rest.
segments-cut :
    (p : Bytes)
    → is_empty (trim_slashes p) ≡ false
    → segments p ≡ (cut (trim_slashes p)).0 ∷ segments (cut (trim_slashes p)).1
segments-cut p h =
    let (ws, here, rest) = cut-split (trim_slashes p) in
    rw (← segments-trim p) (
      unfold segments in
      rw (here, trim_starts p h) (ap (λ (t : List Bytes). (cut (trim_slashes p)).0 ∷ t) rest))

segments-of_empty : (q : Bytes) → is_empty q ≡ true → segments q ≡ []
unfolding segments split
segments-of_empty [] h = refl
segments-of_empty (c ∷ s) h = cc

segments-empty : (p : Bytes) → is_empty (trim_slashes p) ≡ true → segments p ≡ []
segments-empty p h = sym (segments-trim p) ∙ segments-of_empty (trim_slashes p) h

length-trim : (p : Bytes) → length (trim_slashes p) ≤ length p
unfolding trim_slashes
length-trim [] = omega arith
length-trim (c ∷ s) = ground (arith, length-trim s)

length-cut : (q : Bytes) → length (cut q).1 ≤ length q
unfolding cut
length-cut [] = omega arith
length-cut (c ∷ s) = ground (arith, length-cut s)

length-cut_trim :
    (p : Bytes) → is_empty (trim_slashes p) ≡ false → length (cut (trim_slashes p)).1 < length p
unfolding trim_slashes cut
length-cut_trim [] h = cc
length-cut_trim (c ∷ s) h = elim (Bool-cases (c == b'/')) [
  | inl e ↦ rw e (omega (arith, length-cut_trim s (rw e at h)))
  | inr e ↦ rw (e, e) (omega (arith, length-cut s))
]

-- The walk along segments that are split beforehand.
module _ {H : Type 0} where
  unfoldable pub walk_segments : Bytes → Node H → List Bytes → Params → Option H × Params
  walk_segments method n [] ps = (endpoint method n, ps)
  walk_segments method n (seg ∷ segs) ps = descend (λ m qs. walk_segments method m segs qs) seg n ps

  -- With more fuel than the path has bytes, the walk is that along the segments of the path.
  pub walk-segments :
      (fuel : ℕ) (method : Bytes) (n : Node H) (path : Bytes) (ps : Params)
      → length path < fuel
      → walk fuel method n path ps ≡ walk_segments method n (segments path) ps
  unfolding walk walk_segments
  walk-segments zero method n path ps h = absurd (omega arith)
  walk-segments (suc fuel) method n path ps h = elim (Bool-cases (is_empty (trim_slashes path))) [
    | inl e ↦ rw (e, segments-empty path e) refl
    | inr e ↦
        let shorter = length-cut_trim path e in
        let rest = (cut (trim_slashes path)).1 in
        rw (e, segments-cut path e)
          (ap (λ (k : Walk H). descend k (cut (trim_slashes path)).0 n ps)
            (fun_ext λ m. fun_ext λ qs. walk-segments fuel method m rest qs (omega arith)))
  ]
