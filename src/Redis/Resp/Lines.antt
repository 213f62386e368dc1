-- ===== src/Redis/Resp/Lines.antt =====
-- crates/kernway-redis/src/resp.rs: the first line of a reply, its number, and what is decided by its
-- first byte.
use kernway.Prelude.{
  ℕ, ◌+◌, ◌-◌, ◌%◌, ◌^◌, ◌≤◌, ◌<◌, ◌≡◌, refl, Option, none, some, [], ◌∷◌, ◌++◌, arith, ltb, ltb→le,
  ◌==◌, if◌then◌else◌, Bool-cases, Option-cases, inl, inr, length, take, drop, Bytes, All, ℤ, pos,
  parse_i64, parse_i64-bound,
}
use kernway.Redis.Resp.{
  Value, bulk, Reply, done, partial_reply, failed, panic, ◌>>=◌, find_crlf, as_str, or_not_integer,
  as_int, bulk_reply, by_kind,
}

pub find_crlf-bound : (b : Bytes) (k : ℕ) → find_crlf b ≡ some k → k + 2 ≤ length b
unfolding find_crlf
find_crlf-bound [] k h = cc
find_crlf-bound (c ∷ []) k h = cc
find_crlf-bound (c ∷ d ∷ s) k h = elim (Option-cases (find_crlf (d ∷ s))) [
  | inl e ↦ ground (arith, h, e)
  | inr (n, e) ↦ ground (arith, h, e, find_crlf-bound (d ∷ s) n e)
]

pub find_crlf-append :
    (b more : Bytes) (k : ℕ) → find_crlf b ≡ some k → find_crlf (b ++ more) ≡ some k
unfolding find_crlf
find_crlf-append [] more k h = cc
find_crlf-append (c ∷ []) more k h = cc
find_crlf-append (c ∷ d ∷ s) more k h = elim (Option-cases (find_crlf (d ∷ s))) [
  | inl e ↦ ground (arith, h, e)
  | inr (n, e) ↦ ground (arith, h, e, find_crlf-append (d ∷ s) more n e)
]

-- Bytes that may stand in a line of a command.
abbrev pub IsPlain : ℕ → Type 0
IsPlain c = (14 ≤ c) × (c < 0x80)

pub find_crlf-line :
    (s more : Bytes) → All IsPlain s → find_crlf (s ++ 13 ∷ 10 ∷ more) ≡ some (length s)
unfolding find_crlf
find_crlf-line [] more h = refl
find_crlf-line (c ∷ []) more (h, hs) = ground arith
find_crlf-line (c ∷ d ∷ s) more (h, hs) = ground (arith, find_crlf-line (d ∷ s) more hs)

pub bind_inv :
    {A B : Type 0} (m : Reply A) (f : A → Reply B) (b : B)
    → (m >>= f) ≡ done b
    → (a : A) × (m ≡ done a) × (f a ≡ done b)
bind_inv (done a) f b h = (a, refl, h)
bind_inv partial_reply f b h = cc
bind_inv (failed e) f b h = cc
bind_inv panic f b h = cc

-- A number of a line is within 63 bits.
pub as_int-bound : (line : Bytes) (n : ℕ) → as_int line ≡ done (pos n) → n < 2 ^ 63
unfolding as_int or_not_integer
as_int-bound line n h =
    let (s, _, here) = bind_inv (as_str line) (λ s. or_not_integer (parse_i64 s)) (pos n) h in
    parse_i64-bound s n (parsed (parse_i64 s) here)
  where
    parsed : (o : Option ℤ) → or_not_integer o ≡ done (pos n) → o ≡ some (pos n)
    parsed none e = absurd (ground (arith, e))
    parsed (some m) e = ground (arith, e)

-- The bulk string where nothing wraps.
abbrev pub bulk_here : Bytes → ℕ → ℕ → Reply (Value × ℕ)
bulk_here b after len =
    if ltb (length b) (after + len + 2)
    then partial_reply
    else done (bulk (take len (drop after b)), after + len + 2)

-- Where nothing wraps, a bulk string is the bytes behind its line.
pub bulk_reply-eq :
    (b : Bytes) (after len : ℕ)
    → length b < 2 ^ 62
    → after ≤ length b
    → len < 2 ^ 63
    → bulk_reply b after (pos len) ≡ bulk_here b after len
unfolding bulk_reply
bulk_reply-eq b after len h k l =
    let at_end : (after + len) % 2 ^ 64 ≡ after + len = omega arith in
    let at_next : (after + len + 2) % 2 ^ 64 ≡ after + len + 2 = omega arith in
    let size : after + len - after ≡ len = omega arith in
    rw (at_end, at_next, size)
      (elim (Bool-cases (ltb (length b) (after + len + 2))) [
        | inl short ↦ rw short refl
        | inr long ↦ rw long (ground (arith, ltb→le (length b) (after + len + 2) long))
      ])

-- What holds of the cases of two replies of one kind holds of the replies.
pub by_kind-related {ℓ κ} :
    {A : Type ℓ} {B : Type ℓ} (R : A → B → Type κ) (kind : ℕ) (p m c d s o : A)
    (p' m' c' d' s' o' : B)
    → R p p'
    → R m m'
    → R c c'
    → R d d'
    → R s s'
    → R o o'
    → R (by_kind kind p m c d s o) (by_kind kind p' m' c' d' s' o')
by_kind-related R kind p m c d s o p' m' c' d' s' o' hp hm hc hd hs ho =
    elim (Bool-cases (kind == b'+')) [
      | inl e ↦ rw e hp
      | inr e ↦ rw e (elim (Bool-cases (kind == b'-')) [
        | inl e ↦ rw e hm
        | inr e ↦ rw e (elim (Bool-cases (kind == b':')) [
          | inl e ↦ rw e hc
          | inr e ↦ rw e (elim (Bool-cases (kind == b'$')) [
            | inl e ↦ rw e hd
            | inr e ↦ rw e (elim (Bool-cases (kind == b'*')) [ inl e ↦ rw e hs | inr e ↦ rw e ho ])
          ])
        ])
      ])
    ]
