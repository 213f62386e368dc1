-- ===== src/Http/Parser/HeadEnd.antt =====
-- crates/kernway-http/src/parser.rs: where `find_head_end` ends a head, and that later bytes do not
-- move it.
use kernway.Prelude.{
  ℕ, ◌+◌, ◌≤◌, ◌<◌, ◌≡◌, ◌∙◌, sym, refl, Bool, true, false, not, none, [], ◌∷◌, ◌++◌, arith, ◌==◌,
  ◌-◌, leb, ltb, some, take, drop, if◌then◌else◌, length, all, Bytes, is_empty, append-nil,
  append_assoc, length-append,
}
use kernway.Http.Parser.{
  Outcome, ok, err, panic, ◌>>=◌, strip_cr, head_end_from, find_head_end, slice, parse_head_inner,
  head_of, decode_head, max_head_bytes, too_large,
}

head_end_bounds :
    (line : Bytes) (pos n : ℕ) (buf : Bytes) (e l : ℕ)
    → head_end_from line pos n buf ≡ some (e, l)
    → (pos < e) × (e ≤ pos + length buf)
unfolding head_end_from
head_end_bounds line pos n [] e l h = cc
head_end_bounds line pos n (c ∷ s) e l h = ground (
  arith,
  h,
  head_end_bounds (if c == 10 then [] else line ++ c ∷ []) (pos + 1) (if c == 10 then n + 1 else n)
      s e l,
)

head_end_stable :
    (line : Bytes) (pos n : ℕ) (buf more : Bytes) (e l : ℕ)
    → head_end_from line pos n buf ≡ some (e, l)
    → head_end_from line pos n (buf ++ more) ≡ some (e, l)
unfolding head_end_from
head_end_stable line pos n [] more e l h = cc
head_end_stable line pos n (c ∷ s) more e l h = ground (
  arith,
  h,
  head_end_stable (if c == 10 then [] else line ++ c ∷ []) (pos + 1) (if c == 10 then n + 1 else n)
      s more e l,
)

head_end_late :
    (line : Bytes) (pos n : ℕ) (buf more : Bytes) (e l : ℕ)
    → head_end_from line pos n buf ≡ none
    → head_end_from line pos n (buf ++ more) ≡ some (e, l)
    → pos + length buf < e
unfolding head_end_from
head_end_late line pos n [] more e l h k = ground (arith, head_end_bounds line pos n more e l k)
head_end_late line pos n (c ∷ s) more e l h k = ground (
  arith,
  h,
  k,
  head_end_late (if c == 10 then [] else line ++ c ∷ []) (pos + 1) (if c == 10 then n + 1 else n) s
      more e l,
)

pub find_head_end_le : (buf : Bytes) (e l : ℕ) → find_head_end buf ≡ some (e, l) → e ≤ length buf
unfolding find_head_end
find_head_end_le buf e l h = omega (arith, head_end_bounds [] 0 0 buf e l h)

pub find_head_end_stable :
    (buf more : Bytes) (e l : ℕ)
    → find_head_end buf ≡ some (e, l)
    → find_head_end (buf ++ more) ≡ some (e, l)
unfolding find_head_end
find_head_end_stable buf more e l h = head_end_stable [] 0 0 buf more e l h

pub find_head_end_late :
    (buf more : Bytes) (e l : ℕ)
    → find_head_end buf ≡ none
    → find_head_end (buf ++ more) ≡ some (e, l)
    → length buf < e
unfolding find_head_end
find_head_end_late buf more e l h k = omega (arith, head_end_late [] 0 0 buf more e l h k)

-- A step that succeeded, and what it was given.
pub bind_inv :
    {A B : Type 0} (m : Outcome A) (f : A → Outcome B) (b : B)
    → (m >>= f) ≡ ok b
    → (a : A) × (m ≡ ok a) × (f a ≡ ok b)
bind_inv (ok a) f b h = (a, refl, h)
bind_inv (err e) f b h = cc
bind_inv panic f b h = cc

-- Text that ends no line.
abbrev pub no_lf : Bytes → Bool
no_lf s = all (λ c. not (c == 10)) s

pub no_lf-append : (s t : Bytes) → no_lf s ≡ true → no_lf t ≡ true → no_lf (s ++ t) ≡ true
no_lf-append [] t h k = k
no_lf-append (c ∷ s) t h k = ground (arith, h, no_lf-append s t, k)

strip_cr-long : (s : Bytes) → 2 ≤ length s → is_empty (strip_cr s) ≡ false
unfolding strip_cr
strip_cr-long [] h = absurd (omega arith)
strip_cr-long (c ∷ []) h = absurd (omega arith)
strip_cr-long (c ∷ d ∷ s) h = refl

head_end-same :
    (a b : Bytes) (p q n : ℕ) (rest : Bytes)
    → a ≡ b
    → p ≡ q
    → head_end_from a p n rest ≡ head_end_from b q n rest
head_end-same a b p q n rest h k = rw (h, k) refl

-- Text without a line end goes to the line.
head_end-text :
    (s line : Bytes) (pos n : ℕ) (rest : Bytes)
    → no_lf s ≡ true
    → head_end_from line pos n (s ++ rest) ≡ head_end_from (line ++ s) (pos + length s) n rest
unfolding head_end_from
head_end-text [] line pos n rest h =
    head_end-same line (line ++ []) pos (pos + 0) n rest (sym (append-nil line)) (omega arith)
head_end-text (c ∷ s) line pos n rest h =
    let other : (c == 10) ≡ false = ground (arith, h) in
    let later = head_end-text s (line ++ c ∷ []) (pos + 1) n rest (ground (arith, h)) in
    rw other (later ∙ head_end-same _ _ _ _ n rest (append_assoc line (c ∷ []) s) (omega arith))

-- The end of a line that holds something starts the next, and that of an empty line ends the head.
head_end-lf :
    (line : Bytes) (pos n : ℕ) (rest : Bytes)
    → is_empty (strip_cr line) ≡ false
    → head_end_from line pos n (10 ∷ rest) ≡ head_end_from [] (pos + 1) (n + 1) rest
unfolding head_end_from
head_end-lf line pos n rest h = rw h refl

pub head_end-line :
    (s : Bytes) (pos n : ℕ) (rest : Bytes)
    → no_lf s ≡ true
    → 1 ≤ length s
    → head_end_from [] pos n (s ++ 13 ∷ 10 ∷ rest)
      ≡ head_end_from [] (pos + length s + 2) (n + 1) rest
head_end-line s pos n rest h k =
    let text = head_end-text s [] pos n (13 ∷ 10 ∷ rest) h in
    let cr = head_end-text (13 ∷ []) s (pos + length s) n (10 ∷ rest) refl in
    let lf =
      head_end-lf (s ++ 13 ∷ []) (pos + length s + 1) n rest
        (strip_cr-long (s ++ 13 ∷ []) (omega (arith, k, length-append s (13 ∷ [])))) in
    text ∙ cr ∙ lf ∙ head_end-same [] [] _ _ (n + 1) rest refl (omega arith)

pub head_end-stop :
    (pos n : ℕ) (rest : Bytes) → head_end_from [] pos n (13 ∷ 10 ∷ rest) ≡ some (pos + 2, n)
unfolding head_end_from strip_cr
head_end-stop pos n rest = ground arith

le→leb : (a b : ℕ) → a ≤ b → leb a b ≡ true
le→leb a b h = ground arith

-- A slice of the front, which is in range.
slice-take : (e : ℕ) (buf : Bytes) → e ≤ length buf → slice 0 e buf ≡ ok (take e buf)
slice-take e buf h =
    let size : e - 0 ≡ e = omega arith in
    rw (le→leb e (length buf) h, le→leb 0 e (omega arith), size) refl

pub slice-body :
    (e n : ℕ) (buf : Bytes) → e + n ≤ length buf → slice e (e + n) buf ≡ ok (take n (drop e buf))
slice-body e n buf h =
    let size : e + n - e ≡ n = omega arith in
    rw (le→leb (e + n) (length buf) h, le→leb e (e + n) (omega arith), size) refl

-- A head whose end is known is in the buffer.
pub inner_known :
    (buf : Bytes) (e l : ℕ)
    → find_head_end buf ≡ some (e, l)
    → parse_head_inner buf ≡ (
        if ltb max_head_bytes e
        then err too_large
        else (decode_head (take e buf) e >>= λ head. ok (some head)))
unfolding parse_head_inner head_of
inner_known buf e l h = rw (h, slice-take e buf (find_head_end_le buf e l h)) refl
