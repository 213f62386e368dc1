-- ===== src/Http/Writer/Digits.antt =====
-- crates/kernway-http/src/writer.rs: the digits and the texts of a head.
use kernway.Prelude.{
  ℕ, zero, suc, ◌+◌, ◌*◌, ◌/◌, ◌%◌, ◌^◌, ◌≤◌, ◌<◌, ◌≡◌, refl, sym, ap, ◌∙◌, inl, inr, true, false,
  some, [], ◌∷◌, ◌++◌, ltb, nat_eq, ◌==◌, arith, Bool-cases, all, All, Bytes, codes, append_assoc,
  append-nil, decimal, decimal-step, IsDigit, Map, lookup, unwrap_or,
}
use kernway.Http.Parser.HeadEnd.{no_lf}
use kernway.Http.Writer.{itoa_from, itoa, status_texts, status_text}

-- What fits into a number of places.
abbrev limit : ℕ → ℕ
limit zero = 1
limit (suc start) = 10 * limit start

itoa_from-decimal :
    (start n : ℕ) (digits : Bytes)
    → 1 ≤ start
    → n < limit start
    → itoa_from start n digits ≡ some (decimal n ++ digits)
unfolding itoa_from
itoa_from-decimal zero n digits h k = absurd (omega arith)
itoa_from-decimal (suc start) n digits h k = elim (Bool-cases (n / 10 == 0)) [
  | inl small ↦
      let one : ltb n 10 ≡ true = ground (arith, small) in
      let same : 48 + n % 10 ≡ 48 + n = ground (arith, small) in
      rw (small, decimal-step n, one, same) refl
  | inr large ↦
      let more : ltb n 10 ≡ false = ground (arith, large) in
      let room : 1 ≤ start = places start (ground (arith, large)) k in
      let rest =
        itoa_from-decimal start (n / 10) ((48 + n % 10) ∷ digits) room (omega (arith, k)) in
      rw (large, decimal-step n, more)
        (rest ∙ ap some (sym (append_assoc (decimal (n / 10)) ((48 + n % 10) ∷ []) digits)))
]
  where
    places : (s : ℕ) → 10 ≤ n → n < limit (suc s) → 1 ≤ s
    places zero a b = absurd (omega (arith, a, b))
    places (suc s) a b = omega arith

-- The buffer of twenty digits holds every number of 64 bits.
pub itoa-decimal : (n : ℕ) → n < 2 ^ 64 → itoa n ≡ some (decimal n)
unfolding itoa
itoa-decimal n h =
    itoa_from-decimal 20 n [] (omega arith) (omega (arith, h)) ∙ ap some (append-nil (decimal n))

pub digits-no_lf : (s : Bytes) → All IsDigit s → no_lf s ≡ true
digits-no_lf [] h = refl
digits-no_lf (c ∷ s) ((a, b), h) = ground (arith, a, b, digits-no_lf s h)

texts-no_lf :
    (code : ℕ) (m : Map ℕ Bytes) (d : Bytes)
    → all (λ p. no_lf p.1) m ≡ true
    → no_lf d ≡ true
    → no_lf (unwrap_or (lookup code m) d) ≡ true
unfolding lookup
texts-no_lf code [] d h k = k
texts-no_lf code ((c, t) ∷ m) d h k = ground (arith, h, texts-no_lf code m d, k)

pub status_text-no_lf : (code : ℕ) → no_lf (status_text code) ≡ true
unfolding status_text
status_text-no_lf code = texts-no_lf code status_texts (codes "Unknown") refl refl
