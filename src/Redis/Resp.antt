-- ===== src/Redis/Resp.antt =====
-- crates/kernway-redis/src/resp.rs: RESP2 on buffers. `size` stands for `size_of::<Value>()`, which
-- the compiler chooses; running out of memory is not modelled. The recursion of `parse` takes its
-- fuel from the length of the buffer: an array spends at least three bytes before its elements, and
-- `Fuel` shows that no element ends behind the buffer, so that the slice from `off` exists.
pub mod Lines
pub mod Fuel
pub mod Incremental
pub mod Commands
pub mod RoundTrip
mod Tests
use kernway.Prelude.{
  ℕ, zero, suc, ◌+◌, ◌-◌, ◌*◌, ◌/◌, ◌%◌, ◌^◌, Bool, true, false, ◌&&◌, Option, none, some, List, [],
  ◌∷◌, ◌++◌, ltb, leb, ◌==◌, if◌then◌else◌, length, take, drop, Bytes, codes, is_utf8, ℤ, pos,
  negsuc, decimal, parse_i64,
}
use mathlib.Core.Option

mutual
  pub data Value : Type 0 where
    nil : Value
    simple : Bytes → Value
    int : ℤ → Value
    bulk : Bytes → Value
    array : Values → Value

  -- The elements of an array.
  pub data Values : Type 0 where
    no_values : Values
    value_then : Value → Values → Values

-- The errors of `RedisError` that parsing gives.
pub data RedisError : Type 0 where
  server : Bytes → RedisError
  protocol : Bytes → RedisError

-- `Ok(Some(..))`, `Ok(None)`, an error, or a panic.
pub data Reply (A : Type 0) : Type 0 where
  done : A → Reply A
  partial_reply : Reply A
  failed : RedisError → Reply A
  panic : Reply A

infixl 5 ◌>>=◌
abbrev pub ◌>>=◌ : {A B : Type 0} → Reply A → (A → Reply B) → Reply B
done a >>= f = f a
partial_reply >>= f = partial_reply
failed e >>= f = failed e
panic >>= f = panic

pub as_bulk : Value → Option Bytes
as_bulk nil = none
as_bulk (simple s) = none
as_bulk (int n) = none
as_bulk (bulk b) = some b
as_bulk (array vs) = none

pub value_as_int : Value → Option ℤ
value_as_int nil = none
value_as_int (simple s) = none
value_as_int (int n) = some n
value_as_int (bulk b) = none
value_as_int (array vs) = none

abbrev pub crlf : Bytes
crlf = 13 ∷ 10 ∷ []

-- `$<length>`, the bytes, and the ends of both lines.
pub encode_arg : Bytes → Bytes
encode_arg arg = ((b'$' ∷ decimal (length arg)) ++ crlf) ++ (arg ++ crlf)

pub encode_args : List Bytes → Bytes
encode_args [] = []
encode_args (arg ∷ args) = encode_arg arg ++ encode_args args

pub encode : List Bytes → Bytes → Bytes
encode args out = out ++ (((b'*' ∷ decimal (length args)) ++ crlf) ++ encode_args args)

pub find_crlf : Bytes → Option ℕ
find_crlf [] = none
find_crlf (c ∷ []) = none
find_crlf (c ∷ d ∷ s) =
    let rest = find_crlf (d ∷ s) in if c == 13 && d == 10 then some 0 else Option.map suc rest

pub as_str : Bytes → Reply Bytes
as_str b = if is_utf8 b then done b else failed (protocol (codes "reply is not UTF-8"))

pub or_not_integer : Option ℤ → Reply ℤ
or_not_integer none = failed (protocol (codes "reply is not an integer"))
or_not_integer (some n) = done n

pub as_int : Bytes → Reply ℤ
as_int b = do s ← as_str b; or_not_integer (parse_i64 s)

hex_digit : ℕ → ℕ
hex_digit d = if ltb d 10 then 48 + d else 87 + d

-- `{:#x}` of a byte.
hex : ℕ → Bytes
hex b =
    codes "0x"
    ++ (if ltb b 16 then hex_digit b ∷ [] else hex_digit (b / 16) ∷ hex_digit (b % 16) ∷ [])

-- A bulk string, from the end of its line and its length.
pub bulk_reply : Bytes → ℕ → ℤ → Reply (Value × ℕ)
bulk_reply b after (negsuc n) = done (nil, after)
bulk_reply b after (pos len) =
    let end = (after + len) % 2 ^ 64 in
    if ltb (length b) ((end + 2) % 2 ^ 64)
    then partial_reply
    else if leb after end && leb end (length b)
    then done (bulk (take (end - after) (drop after b)), (end + 2) % 2 ^ 64)
    else panic

-- The loop over the elements, by how one is parsed.
pub items : (Bytes → Reply (Value × ℕ)) → ℕ → Bytes → ℕ → Reply (Values × ℕ)
items go zero b off = done (no_values, off)
items go (suc count) b off = do
  (value, used) ← go (drop off b)
  (values, end) ← items go count b (off + used)
  done (value_then value values, end)

-- `Vec::with_capacity` panics on more bytes than `isize::MAX`.
pub array_reply : ℕ → (Bytes → Reply (Value × ℕ)) → Bytes → ℕ → ℤ → Reply (Value × ℕ)
array_reply size go b after (negsuc n) = done (nil, after)
array_reply size go b after (pos count) =
    if ltb (2 ^ 63 - 1) (count * size)
    then panic
    else do (values, end) ← items go count b after; done (array values, end)

-- `match b[0]`
abbrev pub by_kind {ℓ} : {A : Type ℓ} → ℕ → A → A → A → A → A → A → A
by_kind kind plus minus colon dollar star other =
    if kind == b'+'
    then plus
    else if kind == b'-'
    then minus
    else if kind == b':'
    then colon
    else if kind == b'$'
    then dollar
    else if kind == b'*'
    then star
    else other

-- The reply whose first byte is `kind`, by the text and the end of its first line.
pub reply : ℕ → (Bytes → Reply (Value × ℕ)) → Bytes → ℕ → Bytes → ℕ → Reply (Value × ℕ)
reply size go b kind line after =
    by_kind kind (as_str line >>= λ s. done (simple s, after))
      (as_str line >>= λ s. failed (server s)) (as_int line >>= λ n. done (int n, after))
      (as_int line >>= λ len. bulk_reply b after len)
      (as_int line >>= λ count. array_reply size go b after count)
      (failed (protocol (codes "unknown reply type byte " ++ hex kind)))

-- `&b[1..crlf]` panics where the line has no first byte.
pub at_line : ℕ → (Bytes → Reply (Value × ℕ)) → Bytes → Option ℕ → Reply (Value × ℕ)
at_line size go b none = partial_reply
at_line size go b (some zero) = panic
at_line size go [] (some (suc n)) = panic
at_line size go (kind ∷ s) (some (suc n)) = reply size go (kind ∷ s) kind (take n s) (n + 3)

pub parse_fuel : ℕ → ℕ → Bytes → Reply (Value × ℕ)
parse_fuel size zero b = partial_reply
parse_fuel size (suc fuel) b = at_line size (parse_fuel size fuel) b (find_crlf b)

pub parse : ℕ → Bytes → Reply (Value × ℕ)
parse size b = parse_fuel size (suc (length b)) b
