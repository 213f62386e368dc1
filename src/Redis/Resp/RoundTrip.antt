-- ===== src/Redis/Resp/RoundTrip.antt =====
-- crates/kernway-redis/src/resp.rs: `encode` against `parse`, and the replies on which `parse` panics.
use kernway.Prelude.{
  ℕ, suc, ◌+◌, ◌-◌, ◌*◌, ◌^◌, ◌≤◌, ◌<◌, ◌≡◌, refl, sym, ap, ◌∙◌, true, false, List, [], ◌∷◌, ◌++◌,
  append_assoc, arith, ltb, le→ltb, lt→ltb, length, length-append, Bytes, pos, decimal,
}
use kernway.Redis.Resp.{
  array, done, panic, crlf, encode_args, encode, find_crlf, as_int, items, array_reply, reply,
  at_line, parse_fuel, parse,
}
use kernway.Redis.Resp.Fuel.{parse_fuel-parse}
use kernway.Redis.Resp.Commands.{
  bulks, line, as_int-decimal, at_line-number, length-line, drop-line, args-parsed, args_le,
}

-- A command that is encoded, with any bytes behind it, is read back as the array of its arguments,
-- and exactly its own bytes are used. Its array fits a `Vec` and the buffer is shorter than 2^62 bytes.
pub parse-encode :
    (size : ℕ) (args : List Bytes) (more : Bytes)
    → length args * size < 2 ^ 63
    → length (encode args [] ++ more) < 2 ^ 62
    → parse size (encode args [] ++ more) ≡ done (array (bulks args), length (encode args []))
unfolding encode array_reply reply
parse-encode size args more fits small =
    let n = length args in
    let rest : Bytes = encode_args args ++ more in
    let b : Bytes = line b'*' n ++ rest in
    let shape : encode args [] ++ more ≡ b = append_assoc (line b'*' n) (encode_args args) more in
    let short : length b < 2 ^ 62 = omega (arith, small, ap length shape) in
    let whole : length b ≡ length (decimal n) + 3 + (length (encode_args args) + length more) =
      omega (
        arith,
        length-append (line b'*' n) rest,
        length-line b'*' n,
        length-append (encode_args args) more,
      ) in
    let number : as_int (decimal n) ≡ done (pos n) =
      as_int-decimal n (omega (arith, short, whole, args_le args)) in
    let room : ltb (2 ^ 63 - 1) (n * size) ≡ false =
      le→ltb (2 ^ 63 - 1) (n * size) (omega (arith, fits)) in
    let loop : items (parse_fuel size (suc (length b))) n b (length (decimal n) + 3)
        ≡ done (bulks args, length (decimal n) + 3 + length (encode_args args)) =
      args-parsed size (length b) args b more (length (decimal n) + 3) short
        (drop-line b'*' n rest) in
    let used : length (encode args []) ≡ length (decimal n) + 3 + length (encode_args args) =
      omega (arith, length-append (line b'*' n) (encode_args args), length-line b'*' n) in
    let first : parse_fuel size (suc (suc (length b))) b
        ≡ reply size (parse_fuel size (suc (length b))) b b'*' (decimal n)
            (length (decimal n) + 3) =
      unfold parse_fuel in
      at_line-number size (parse_fuel size (suc (length b))) b'*' n rest
        (omega arith, omega arith) in
    ap (parse size) shape
    ∙ sym (parse_fuel-parse size (suc (suc (length b))) b (omega arith))
    ∙ first
    ∙ rw (number, room, loop, used) refl

-- Two replies that make the client panic, whatever follows them: an empty first line, and the header
-- of an array whose elements would take more than `isize::MAX` bytes.
pub parse-panics :
    (size count : ℕ) (more : Bytes)
    → count < 2 ^ 63
    → 2 ^ 63 ≤ count * size
    → (parse size (crlf ++ more) ≡ panic)
      × (parse size (((b'*' ∷ decimal count) ++ crlf) ++ more) ≡ panic)
unfolding parse parse_fuel at_line find_crlf array_reply reply
parse-panics size count more fits large =
    let number = as_int-decimal count fits in
    let full : ltb (2 ^ 63 - 1) (count * size) ≡ true =
      lt→ltb (2 ^ 63 - 1) (count * size) (omega (arith, large)) in
    (
      refl,
      at_line-number size _ b'*' count more (omega arith, omega arith) ∙ rw (number, full) refl,
    )
