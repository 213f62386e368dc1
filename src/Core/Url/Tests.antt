-- ===== src/Core/Url/Tests.antt =====
-- Short texts and a form, read in the way of crates/kernway-core/src/url.rs, and each theorem on them.
use kernway.Prelude.{◌≡◌, refl, [], ◌∷◌, ◌++◌, arith, Bytes, codes, is_utf8, list_eq, nat_eq}
use kernway.Core.Url.{is_unreserved, upper_hex, percent_encode, decoded, panicked, percent_decode}
use kernway.Core.Url.RoundTrip.{percent_decode-encode, percent_decode-panics}

abbrev as_it_is : Bytes → Bytes
as_it_is s = s

abbrev two_words : Bytes
two_words = codes "a b"

escapes : percent_encode two_words ≡ codes "a%20b"
unfolding percent_encode is_unreserved upper_hex
escapes = refl

percent_decode-encode_example :
    percent_decode as_it_is (percent_encode two_words) ≡ decoded two_words
unfolding is_utf8
percent_decode-encode_example =
    percent_decode-encode as_it_is (λ s h. refl) two_words refl
      (omega arith, (omega arith, (omega arith, tt)))

-- The second byte of a character of two bytes is the third behind the percent sign.
percent_decode-panics_example :
    percent_decode as_it_is (codes "x" ++ (b'%' ∷ b'a' ∷ 0xc3 ∷ 0xa9 ∷ [])) ≡ panicked
percent_decode-panics_example =
    percent_decode-panics as_it_is (codes "x") [] b'a' 0xc3 0xa9 (refl, tt) (omega arith)
      (omega arith)
