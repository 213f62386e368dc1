-- ===== src/Static/Negotiation/LastWord.antt =====
-- Which part of an `Accept-Encoding` header of crates/kernway-static/src/lib.rs decides about an encoding.
use kernway.Prelude.{
  ◌≡◌, refl, Bool, true, false, Option, none, List, [], ◌∷◌, ◌++◌, ◌==◌, Bytes, trim, split,
  list_eq, nat_eq, is_empty, All, Bool-cases, inl, inr,
}
use kernway.Static.Negotiation.{is_named, split_qvalue, note_part, weigh, verdict, is_accepted}
use kernway.Security.Bans.Forwarded.{split-append}

-- A part of a list, which no comma divides.
abbrev pub IsPart : Bytes → Type 0
IsPart s = All (λ b. (b == b',') ≡ false) s

split-part : (part : Bytes) → IsPart part → split b',' part ≡ part ∷ []
unfolding split
split-part [] h = refl
split-part (b ∷ s) (h, hs) = rw (h, split-part s hs) refl

module _ {Q : Type 0} (parse_q : Bytes → Option Q) (one zero : Q) (is_positive : Q → Bool) where
  weigh-append :
      (token : Bytes) (parts more : List Bytes) (so_far : Option Q × Option Q)
      → weigh parse_q one token (parts ++ more) so_far
        ≡ weigh parse_q one token more (weigh parse_q one token parts so_far)
  unfolding weigh
  weigh-append token [] more so_far = refl
  weigh-append token (part ∷ parts) more so_far = elim (Bool-cases (is_empty (trim part))) [
    | inl e ↦ rw (weigh, e) (weigh-append token parts more so_far)
    | inr e ↦
        rw (weigh, e)
          (weigh-append token parts more
            (note_part token (split_qvalue parse_q one (trim part)) so_far))
  ]

  note_part-named :
      (token : Bytes) (said : Bytes × Q) (so_far : Option Q × Option Q)
      → is_named token said.0 ≡ true
      → verdict zero is_positive (note_part token said so_far) ≡ is_positive said.1
  unfolding note_part verdict
  note_part-named token (name, q) (exact_q, wildcard_q) h = rw h refl

  weigh-single :
      (token part : Bytes) (so_far : Option Q × Option Q)
      → is_empty (trim part) ≡ false
      → weigh parse_q one token (part ∷ []) so_far
        ≡ note_part token (split_qvalue parse_q one (trim part)) so_far
  unfolding weigh
  weigh-single token part so_far h = rw (weigh, h) refl

  -- A part that is not blank and that no comma divides, at the end of a header: if it names the encoding, in whatever
  -- case, the encoding is accepted exactly if the weight of this part is positive, whatever stood before it.
  pub is_accepted-last :
      (header part token : Bytes)
      → IsPart part
      → is_empty (trim part) ≡ false
      → is_named token (split_qvalue parse_q one (trim part)).0 ≡ true
      → is_accepted parse_q one zero is_positive (header ++ b',' ∷ part) token
        ≡ is_positive (split_qvalue parse_q one (trim part)).1
  unfolding is_accepted weigh
  is_accepted-last header part token undivided some_text named =
      let so_far = weigh parse_q one token (split b',' header) (none, none) in
      rw
        (
          is_accepted,
          split-append b',' header part,
          split-part part undivided,
          weigh-append token (split b',' header) (part ∷ []) (none, none),
          weigh-single token part so_far some_text,
        )
        (note_part-named token (split_qvalue parse_q one (trim part)) so_far named)
