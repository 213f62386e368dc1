-- ===== src/Static/Negotiation/Tests.antt =====
-- Headers that accept encodings as in crates/kernway-static/src/lib.rs, with weights of one digit, and the theorem on one.
use kernway.Prelude.{
  ℕ, ◌≡◌, refl, Bool, List, [], ◌∷◌, Bytes, codes, ltb, parse_u64, digits, digits_from, trim,
  trim_start, trim_end, split, split_once, lowercase, to_lower, list_eq, nat_eq,
}
use kernway.Static.Negotiation.{
  Encoding, brotli, gzip, is_accepted, accepted_encodings, accepted_of, split_qvalue, quality,
  weight_text, weigh, note_part, verdict, content_token,
}

abbrev above_zero : ℕ → Bool
above_zero q = ltb 0 q

encodings : Bytes → List Encoding
encodings = accepted_encodings parse_u64 1 0 above_zero

abbrev offer : Bytes
offer = codes "gzip, *;q=1"

prefers_brotli : encodings offer ≡ brotli ∷ gzip ∷ []
unfolding encodings accepted_encodings accepted_of is_accepted split_qvalue quality weight_text
    weigh note_part verdict content_token split split_once trim trim_start trim_end lowercase
    to_lower parse_u64 digits digits_from
prefers_brotli = refl
