-- ===== src/Redis/Resp/Commands.antt =====
-- crates/kernway-redis/src/resp.rs: the lines and the arguments of an encoded command, as `parse` reads them.
use kernway.Prelude.{
  ℕ, zero, suc, ◌+◌, ◌^◌, ◌≤◌, ◌<◌, ◌≡◌, refl, sym, ap, ◌∙◌, false, some, List, [], ◌∷◌, ◌++◌,
  append_assoc, arith, ltb, le→ltb, length, length-drop, length-append, take, drop, drop-append,
  take-append, Bytes, pos, All, is_utf8-ascii, decimal, IsDigit, decimal-IsDigit, parse_i64-decimal,
}
use kernway.Redis.Resp.{
  Value, Values, bulk, no_values, value_then, Reply, done, crlf, encode_arg, encode_args, find_crlf,
  as_str, or_not_integer, as_int, bulk_reply, items, reply, at_line, parse_fuel,
}
use kernway.Redis.Resp.Lines.{IsPlain, find_crlf-line, bulk_reply-eq}

-- The array that a command is read back as.
abbrev pub bulks : List Bytes → Values
bulks [] = no_values
bulks (arg ∷ args) = value_then (bulk arg) (bulks args)

digits-IsPlain : (s : Bytes) → All IsDigit s → All IsPlain s
digits-IsPlain [] h = tt
digits-IsPlain (c ∷ s) (h, hs) = ((omega arith, omega arith), digits-IsPlain s hs)

digits-ascii : (s : Bytes) → All IsDigit s → All (λ c. c < 0x80) s
digits-ascii [] h = tt
digits-ascii (c ∷ s) (h, hs) = (omega arith, digits-ascii s hs)

pub as_int-decimal : (n : ℕ) → n < 2 ^ 63 → as_int (decimal n) ≡ done (pos n)
unfolding as_int as_str or_not_integer
as_int-decimal n h =
    rw
      (
        is_utf8-ascii (decimal n) (digits-ascii (decimal n) (decimal-IsDigit n)),
        parse_i64-decimal n h,
      )
      refl

-- A line of a command: its first byte and a number.
abbrev pub line : ℕ → ℕ → Bytes
line kind n = (kind ∷ decimal n) ++ crlf

-- Its line is read as that number.
pub at_line-number :
    (size : ℕ) (go : Bytes → Reply (Value × ℕ)) (kind n : ℕ) (rest : Bytes)
    → IsPlain kind
    → at_line size go (line kind n ++ rest) (find_crlf (line kind n ++ rest))
      ≡ reply size go (line kind n ++ rest) kind (decimal n) (length (decimal n) + 3)
unfolding at_line
at_line-number size go kind n rest plain =
    let shape : line kind n ++ rest ≡ kind ∷ decimal n ++ 13 ∷ 10 ∷ rest =
      append_assoc (kind ∷ decimal n) crlf rest in
    let found : find_crlf (kind ∷ decimal n ++ 13 ∷ 10 ∷ rest) ≡ some (suc (length (decimal n))) =
      find_crlf-line (kind ∷ decimal n) rest
        (plain, digits-IsPlain (decimal n) (decimal-IsDigit n)) in
    rw (shape, found, take-append (decimal n) (13 ∷ 10 ∷ rest)) refl

pub length-line : (kind n : ℕ) → length (line kind n) ≡ length (decimal n) + 3
length-line kind n = omega (arith, length-append (decimal n) crlf)

pub drop-line :
    (kind n : ℕ) (rest : Bytes) → drop (length (decimal n) + 3) (line kind n ++ rest) ≡ rest
drop-line kind n rest =
    ap (λ (k : ℕ). drop k (line kind n ++ rest)) (sym (length-line kind n))
    ∙ drop-append (line kind n) rest

length-encode_arg :
    (arg : Bytes) → length (encode_arg arg) ≡ length (decimal (length arg)) + 3 + length arg + 2
unfolding encode_arg
length-encode_arg arg = omega (
  arith,
  length-append (line b'$' (length arg)) (arg ++ crlf),
  length-line b'$' (length arg),
  length-append arg crlf,
)

-- The bytes behind the line of an argument.
arg-text :
    (arg rest : Bytes)
    → take (length arg) (
        drop
          (length (decimal (length arg)) + 3)
          (line b'$' (length arg) ++ ((arg ++ crlf) ++ rest)))
      ≡ arg
arg-text arg rest =
    rw (drop-line b'$' (length arg) ((arg ++ crlf) ++ rest), append_assoc arg crlf rest)
      (take-append arg (crlf ++ rest))

bulk-parsed :
    (arg rest : Bytes)
    → length (line b'$' (length arg) ++ ((arg ++ crlf) ++ rest)) < 2 ^ 62
    → bulk_reply
        (line b'$' (length arg) ++ ((arg ++ crlf) ++ rest))
        (length (decimal (length arg)) + 3)
        (pos (length arg))
      ≡ done (bulk arg, length (encode_arg arg))
bulk-parsed arg rest small =
    let n = length arg in
    let b : Bytes = line b'$' n ++ ((arg ++ crlf) ++ rest) in
    let size : length b ≡ length (decimal n) + 3 + (n + 2 + length rest) = omega (
      arith,
      length-append (line b'$' n) ((arg ++ crlf) ++ rest),
      length-line b'$' n,
      length-append (arg ++ crlf) rest,
      length-append arg crlf,
    ) in
    let room : ltb (length b) (length (decimal n) + 3 + n + 2) ≡ false =
      le→ltb (length b) (length (decimal n) + 3 + n + 2) (omega (arith, size)) in
    bulk_reply-eq b (length (decimal n) + 3) n small (omega (arith, size))
      (omega (arith, size, small))
    ∙ rw (room, arg-text arg rest, length-encode_arg arg) refl

arg-parsed :
    (size fuel : ℕ) (arg rest : Bytes)
    → length (encode_arg arg ++ rest) < 2 ^ 62
    → parse_fuel size (suc fuel) (encode_arg arg ++ rest) ≡ done (bulk arg, length (encode_arg arg))
arg-parsed size fuel arg rest small =
    let n = length arg in
    let shape : encode_arg arg ++ rest ≡ line b'$' n ++ ((arg ++ crlf) ++ rest) =
      unfold encode_arg in append_assoc (line b'$' n) (arg ++ crlf) rest in
    let number =
      as_int-decimal n
        (omega (arith, small, length-append (encode_arg arg) rest, length-encode_arg arg)) in
    let first : parse_fuel size (suc fuel) (line b'$' n ++ ((arg ++ crlf) ++ rest))
        ≡ reply size (parse_fuel size fuel) (line b'$' n ++ ((arg ++ crlf) ++ rest)) b'$'
            (decimal n) (length (decimal n) + 3) =
      unfold parse_fuel in
      at_line-number size (parse_fuel size fuel) b'$' n ((arg ++ crlf) ++ rest)
        (omega arith, omega arith) in
    let kind : reply size (parse_fuel size fuel) (line b'$' n ++ ((arg ++ crlf) ++ rest)) b'$'
          (decimal n) (length (decimal n) + 3)
        ≡ bulk_reply (line b'$' n ++ ((arg ++ crlf) ++ rest)) (length (decimal n) + 3) (pos n) =
      unfold reply in rw number refl in
    ap (parse_fuel size (suc fuel)) shape ∙ first ∙ kind ∙ bulk-parsed arg rest (rw shape at small)

drop_none : {A : Type 0} (n : ℕ) → drop {A = A} n [] ≡ []
drop_none zero = refl
drop_none (suc n) = refl

drop-drop : {A : Type 0} (m n : ℕ) (xs : List A) → drop (m + n) xs ≡ drop n (drop m xs)
drop-drop zero n xs = let same : 0 + n ≡ n = omega arith in ap (λ (k : ℕ). drop k xs) same
drop-drop (suc m) n [] = drop_none (suc m + n) ∙ sym (drop_none n)
drop-drop (suc m) n (x ∷ xs) =
    let shape : suc m + n ≡ suc (m + n) = omega arith in
    ap (λ (k : ℕ). drop k (x ∷ xs)) shape ∙ drop-drop m n xs

pub args_le : (args : List Bytes) → length args ≤ length (encode_args args)
unfolding encode_args
args_le [] = omega arith
args_le (arg ∷ args) =
    omega (
      arith,
      args_le args,
      length-append (encode_arg arg) (encode_args args),
      length-encode_arg arg,
    )

-- The loop reads every argument.
pub args-parsed :
    (size fuel : ℕ) (args : List Bytes) (b more : Bytes) (off : ℕ)
    → length b < 2 ^ 62
    → drop off b ≡ encode_args args ++ more
    → items (parse_fuel size (suc fuel)) (length args) b off
      ≡ done (bulks args, off + length (encode_args args))
unfolding items encode_args
args-parsed size fuel [] b more off small here = ap (λ (k : ℕ). done (no_values, k)) (omega arith)
args-parsed size fuel (arg ∷ args) b more off small here =
    let rest : Bytes = encode_args args ++ more in
    let shape : drop off b ≡ encode_arg arg ++ rest =
      here ∙ append_assoc (encode_arg arg) (encode_args args) more in
    let fits : length (encode_arg arg ++ rest) < 2 ^ 62 =
      omega (arith, small, ap length shape, length-drop off b) in
    let next : drop (off + length (encode_arg arg)) b ≡ rest =
      drop-drop off (length (encode_arg arg)) b
      ∙ ap (drop (length (encode_arg arg))) shape
      ∙ drop-append (encode_arg arg) rest in
    rw
      (
        shape,
        arg-parsed size fuel arg rest fits,
        args-parsed size fuel args b more (off + length (encode_arg arg)) small next,
      )
      (ap (λ (k : ℕ). done (value_then (bulk arg) (bulks args), k))
        (omega (arith, length-append (encode_arg arg) (encode_args args))))
