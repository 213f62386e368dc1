-- ===== src/Redis/Resp/Incremental.antt =====
-- crates/kernway-redis/src/resp.rs: reading a reply piece by piece. What has been decided from the front of
-- a buffer does not change when more bytes arrive.
use kernway.Prelude.{
  ℕ, zero, suc, ◌+◌, ◌-◌, ◌*◌, ◌^◌, ◌≤◌, ◌<◌, ◌≡◌, ◌≢◌, refl, sym, ◌∙◌, Option, none, some, [], ◌∷◌,
  ◌++◌, arith, ltb, ltb→le, le→ltb, Bool-cases, inl, inr, length, length-drop, length-append, take,
  drop, drop-append_le, take-append_le, Bytes, ℤ, pos, negsuc,
}
use kernway.Redis.Resp.{
  Value, int, simple, server, Reply, done, partial_reply, failed, panic, ◌>>=◌, find_crlf, as_str,
  as_int, bulk_reply, items, array_reply, reply, at_line, parse_fuel, parse,
}
use kernway.Redis.Resp.Lines.{
  find_crlf-bound, find_crlf-append, as_int-bound, bulk_here, bulk_reply-eq, by_kind-related,
}
use kernway.Redis.Resp.Fuel.{Within, parse_fuel-Within, parse_fuel-parse}

module _ {A : Type 0} where
  -- Unless the second is still partial, the replies are the same.
  abbrev Settles : Reply A → Reply A → Type 0
  Settles longer shorter = shorter ≢ partial_reply → longer ≡ shorter

  Settles-refl : (r : Reply A) → Settles r r
  Settles-refl r h = refl

-- Steps that settle, in order.
bind-Settles :
    {A B : Type 0} (m n : Reply A) (f g : A → Reply B)
    → Settles m n
    → ((a : A) → n ≡ done a → Settles (f a) (g a))
    → Settles (m >>= f) (n >>= g)
bind-Settles m (done a) f g h k e = rw (h (λ x. ground (arith, x))) (k a refl e)
bind-Settles m partial_reply f g h k e = absurd (e refl)
bind-Settles m (failed x) f g h k e = rw (h (λ y. ground (arith, y))) refl
bind-Settles m panic f g h k e = rw (h (λ y. ground (arith, y))) refl

bulk_reply-Settles :
    (b more line : Bytes) (after : ℕ) (len : ℤ)
    → length (b ++ more) < 2 ^ 62
    → after ≤ length b
    → as_int line ≡ done len
    → Settles (bulk_reply (b ++ more) after len) (bulk_reply b after len)
unfolding bulk_reply
bulk_reply-Settles b more line after (negsuc l) small k e done_ = refl
bulk_reply-Settles b more line after (pos l) small k e settled =
    let here =
      bulk_reply-eq b after l (omega (arith, small, length-append b more)) k
        (as_int-bound line l e) in
    let there =
      bulk_reply-eq (b ++ more) after l small (omega (arith, k, length-append b more))
        (as_int-bound line l e) in
    there ∙ longer (rw here at settled) ∙ sym here
  where
    longer :
        bulk_here b after l ≢ partial_reply → bulk_here (b ++ more) after l ≡ bulk_here b after l
    longer s = elim (Bool-cases (ltb (length b) (after + l + 2))) [
      | inl short ↦ absurd (s (rw short refl))
      | inr long ↦
          let room = ltb→le (length b) (after + l + 2) long in
          let enough =
            le→ltb (length (b ++ more)) (after + l + 2)
              (omega (arith, room, length-append b more)) in
          let text : take l (drop after (b ++ more)) ≡ take l (drop after b) =
            rw (drop-append_le after b more k)
              (take-append_le l (drop after b) more (omega (arith, room, length-drop after b))) in
          rw (long, enough, text) refl
    ]

items-Settles :
    (go : Bytes → Reply (Value × ℕ)) (b more : Bytes)
    → ((s : Bytes) → length s ≤ length b → Within 0 (length s) (go s))
    → ((s : Bytes) → length s ≤ length b → Settles (go (s ++ more)) (go s))
    → (count off : ℕ) → off ≤ length b
    → Settles (items go count (b ++ more) off) (items go count b off)
unfolding items
items-Settles go b more within settles zero off k = λ e. refl
items-Settles go b more within settles (suc count) off k = rw (drop-append_le off b more k) (
    bind-Settles (go (drop off b ++ more)) (go (drop off b)) _ _
      (settles (drop off b) (omega (arith, length-drop off b)))
      (λ found one.
        let (_, used) =
          within (drop off b) (omega (arith, length-drop off b)) found.0 found.1 one in
        bind-Settles (items go count (b ++ more) (off + found.1)) (items go count b (off + found.1))
          _ _
          (items-Settles go b more within settles count (off + found.1)
            (omega (arith, used, length-drop off b)))
          (λ values others. Settles-refl _)))

array_reply-Settles :
    (size : ℕ) (go : Bytes → Reply (Value × ℕ)) (b more : Bytes)
    → ((s : Bytes) → length s ≤ length b → Within 0 (length s) (go s))
    → ((s : Bytes) → length s ≤ length b → Settles (go (s ++ more)) (go s))
    → (after : ℕ) (count : ℤ) → after ≤ length b
    → Settles (array_reply size go (b ++ more) after count) (array_reply size go b after count)
unfolding array_reply
array_reply-Settles size go b more within settles after (negsuc c) k = λ e. refl
array_reply-Settles size go b more within settles after (pos c) k =
    elim (Bool-cases (ltb (2 ^ 63 - 1) (c * size))) [
      | inl big ↦ rw big (Settles-refl _)
      | inr fits ↦ rw fits (
          bind-Settles (items go c (b ++ more) after) (items go c b after) _ _
            (items-Settles go b more within settles c after k) (λ values others. Settles-refl _))
    ]

reply-Settles :
    (size : ℕ) (go : Bytes → Reply (Value × ℕ)) (b more : Bytes) (kind : ℕ) (line : Bytes)
    (after : ℕ)
    → length (b ++ more) < 2 ^ 62
    → after ≤ length b
    → ((s : Bytes) → length s ≤ length b → Within 0 (length s) (go s))
    → ((s : Bytes) → length s ≤ length b → Settles (go (s ++ more)) (go s))
    → Settles (reply size go (b ++ more) kind line after) (reply size go b kind line after)
unfolding reply
reply-Settles size go b more kind line after small k within settles =
    by_kind-related Settles kind _ _ _ _ _ _ _ _ _ _ _ _
      (Settles-refl (as_str line >>= λ s. done (simple s, after)))
      (Settles-refl {A = Value × ℕ} (as_str line >>= λ s. failed (server s)))
      (Settles-refl (as_int line >>= λ n. done (int n, after)))
      (bind-Settles (as_int line) (as_int line) (bulk_reply (b ++ more) after) (bulk_reply b after)
        (Settles-refl (as_int line))
        (λ len here. bulk_reply-Settles b more line after len small k here))
      (bind-Settles (as_int line) (as_int line) (array_reply size go (b ++ more) after)
        (array_reply size go b after) (Settles-refl (as_int line))
        (λ count here. array_reply-Settles size go b more within settles after count k))
      (Settles-refl _)

at_line-Settles :
    (size : ℕ) (go : Bytes → Reply (Value × ℕ)) (b more : Bytes) (o : Option ℕ)
    → length (b ++ more) < 2 ^ 62
    → find_crlf b ≡ o
    → ((s : Bytes) → length s ≤ length b → Within 0 (length s) (go s))
    → ((s : Bytes) → length s ≤ length b → Settles (go (s ++ more)) (go s))
    → Settles (at_line size go (b ++ more) (find_crlf (b ++ more))) (at_line size go b o)
unfolding at_line
at_line-Settles size go b more none small e within settles = λ h. absurd (h refl)
at_line-Settles size go b more (some zero) small e within settles =
    rw (find_crlf-append b more 0 e) (λ h. refl)
at_line-Settles size go [] more (some (suc k)) small e within settles =
    absurd (omega (arith, find_crlf-bound [] (suc k) e))
at_line-Settles size go (kind ∷ s) more (some (suc k)) small e within settles =
    let room = find_crlf-bound (kind ∷ s) (suc k) e in
    rw (find_crlf-append (kind ∷ s) more (suc k) e, take-append_le k s more (omega (arith, room)))
      (reply-Settles size go (kind ∷ s) more kind (take k s) (k + 3) small (omega (arith, room))
        within settles)

parse_fuel-Settles :
    (size fuel : ℕ) (b more : Bytes)
    → length (b ++ more) < 2 ^ 62
    → Settles (parse_fuel size fuel (b ++ more)) (parse_fuel size fuel b)
unfolding parse_fuel
parse_fuel-Settles size zero b more small = λ h. absurd (h refl)
parse_fuel-Settles size (suc fuel) b more small =
    at_line-Settles size (parse_fuel size fuel) b more (find_crlf b) small refl
      (λ s short v n here.
        let (_, up) =
          parse_fuel-Within size fuel s (omega (arith, short, small, length-append b more)) v n
            here in
        (omega arith, up))
      (λ s short.
        parse_fuel-Settles size fuel s more
          (omega (arith, short, small, length-append b more, length-append s more)))

-- Once the front of a buffer gives a value, an error or a panic, so does the same buffer with any
-- bytes behind it, and a value uses as many bytes. The buffer is shorter than 2^62 bytes.
pub parse-append :
    (size : ℕ) (b more : Bytes)
    → length (b ++ more) < 2 ^ 62
    → parse size b ≢ partial_reply
    → parse size (b ++ more) ≡ parse size b
parse-append size b more small settled =
    let fuel = suc (length (b ++ more)) in
    let here = parse_fuel-parse size fuel b (omega (arith, length-append b more)) in
    sym (parse_fuel-parse size fuel (b ++ more) (omega arith))
    ∙ parse_fuel-Settles size fuel b more small (rw here settled)
    ∙ here
