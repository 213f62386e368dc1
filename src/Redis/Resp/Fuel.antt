-- ===== src/Redis/Resp/Fuel.antt =====
-- crates/kernway-redis/src/resp.rs: how much `parse` consumes, and that its fuel is enough.
use kernway.Prelude.{
  ℕ, zero, suc, ◌+◌, ◌-◌, ◌*◌, ◌^◌, ◌≤◌, ◌<◌, ◌≡◌, refl, sym, ◌∙◌, Option, none, some, [], ◌∷◌,
  arith, ltb, Bool-cases, inl, inr, length, length-drop, take, drop, Bytes, ℤ, pos, negsuc,
}
use kernway.Redis.Resp.{
  Value, array, int, simple, server, Reply, done, partial_reply, failed, panic, ◌>>=◌, find_crlf,
  as_str, as_int, bulk_reply, items, array_reply, reply, at_line, parse_fuel, parse,
}
use kernway.Redis.Resp.Lines.{
  find_crlf-bound, bind_inv, as_int-bound, bulk_here, bulk_reply-eq, by_kind-related,
}

-- A reply ends in the buffer, at or behind the given place.
module _ {A : Type 0} where
  abbrev pub Within : ℕ → ℕ → Reply (A × ℕ) → Type 0
  Within from to r = (a : A) (n : ℕ) → r ≡ done (a, n) → (from ≤ n) × (n ≤ to)

items-Within :
    (go : Bytes → Reply (Value × ℕ)) (b : Bytes)
    → ((s : Bytes) → length s ≤ length b → Within 0 (length s) (go s))
    → (count off : ℕ) → off ≤ length b
    → Within off (length b) (items go count b off)
unfolding items
items-Within go b hyp zero off k vs n h = ground (arith, h)
items-Within go b hyp (suc count) off k vs n h =
    let (first, one, h') = bind_inv (go (drop off b)) _ (vs, n) h in
    let (rest, others, h'') = bind_inv (items go count b (off + first.1)) _ (vs, n) h' in
    let (_, used) = hyp (drop off b) (omega (arith, length-drop off b)) first.0 first.1 one in
    let room : off + first.1 ≤ length b = omega (arith, used, length-drop off b) in
    let (low, high) = items-Within go b hyp count (off + first.1) room rest.0 rest.1 others in
    let same_end : rest.1 ≡ n = ground (arith, h'') in
    (omega (arith, low, same_end), omega (arith, high, same_end))

array_reply-Within :
    (size : ℕ) (go : Bytes → Reply (Value × ℕ)) (b : Bytes)
    → ((s : Bytes) → length s ≤ length b → Within 0 (length s) (go s))
    → (after : ℕ) (count : ℤ) → after ≤ length b
    → Within after (length b) (array_reply size go b after count)
unfolding array_reply
array_reply-Within size go b hyp after (negsuc c) k v n h = ground (arith, h)
array_reply-Within size go b hyp after (pos c) k v n h =
    elim (Bool-cases (ltb (2 ^ 63 - 1) (c * size))) [
      | inl big ↦
          let x : panic ≡ done (v, n) = rw (array_reply, big) at h in absurd (ground (arith, x))
      | inr fits ↦
          let x : (items go c b after >>= λ (vs, end). done (array vs, end)) ≡ done (v, n) =
            rw (array_reply, fits) at h in
          let (found, here, e) = bind_inv (items go c b after) _ (v, n) x in
          let (low, high) = items-Within go b hyp c after k found.0 found.1 here in
          let same_end : found.1 ≡ n = ground (arith, e) in
          (omega (arith, low, same_end), omega (arith, high, same_end))
    ]

bulk_reply-Within :
    (b : Bytes) (after : ℕ) (line : Bytes) (len : ℤ)
    → length b < 2 ^ 62
    → after ≤ length b
    → as_int line ≡ done len
    → Within after (length b) (bulk_reply b after len)
unfolding bulk_reply
bulk_reply-Within b after line (negsuc l) small k e v n h = ground (arith, h)
bulk_reply-Within b after line (pos l) small k e v n h =
    let x : bulk_here b after l ≡ done (v, n) =
      sym (bulk_reply-eq b after l small k (as_int-bound line l e)) ∙ h in
    ground (arith, x)

reply-Within :
    (size : ℕ) (go : Bytes → Reply (Value × ℕ)) (b : Bytes) (kind : ℕ) (line : Bytes) (after : ℕ)
    → length b < 2 ^ 62
    → after ≤ length b
    → ((s : Bytes) → length s ≤ length b → Within 0 (length s) (go s))
    → Within after (length b) (reply size go b kind line after)
unfolding reply
reply-Within size go b kind line after small k hyp =
    by_kind-related (λ (r : Reply (Value × ℕ)) (r' : Reply (Value × ℕ)). Within after (length b) r)
      kind (as_str line >>= λ s. done (simple s, after)) (as_str line >>= λ s. failed (server s))
      (as_int line >>= λ n. done (int n, after)) (as_int line >>= λ len. bulk_reply b after len)
      (as_int line >>= λ count. array_reply size go b after count) _ panic panic panic panic panic
      panic (text (as_str line)) (error (as_str line)) (number (as_int line))
      (bytes (as_int line) refl) (elements (as_int line)) (λ v n h. absurd (ground (arith, h)))
  where
    text : (m : Reply Bytes) → Within after (length b) (m >>= λ s. done (simple s, after))
    text m v n h = let (s, _, e) = bind_inv m _ (v, n) h in ground (arith, e)

    error : (m : Reply Bytes) → Within {A = Value} after (length b) (m >>= λ s. failed (server s))
    error m v n h = let (s, _, e) = bind_inv m _ (v, n) h in absurd (ground (arith, e))

    number : (m : Reply ℤ) → Within after (length b) (m >>= λ i. done (int i, after))
    number m v n h = let (s, _, e) = bind_inv m _ (v, n) h in ground (arith, e)

    bytes :
        (m : Reply ℤ)
        → as_int line ≡ m
        → Within after (length b) (m >>= λ len. bulk_reply b after len)
    bytes m here v n h =
        let (len, e, f) = bind_inv m _ (v, n) h in
        bulk_reply-Within b after line len small k (here ∙ e) v n f

    elements :
        (m : Reply ℤ) → Within after (length b) (m >>= λ count. array_reply size go b after count)
    elements m v n h =
        let (count, e, f) = bind_inv m _ (v, n) h in
        array_reply-Within size go b hyp after count k v n f

at_line-Within :
    (size : ℕ) (go : Bytes → Reply (Value × ℕ)) (b : Bytes) (o : Option ℕ)
    → length b < 2 ^ 62
    → find_crlf b ≡ o
    → ((s : Bytes) → length s ≤ length b → Within 0 (length s) (go s))
    → Within 3 (length b) (at_line size go b o)
unfolding at_line
at_line-Within size go b none small e hyp v n h = absurd (ground (arith, h))
at_line-Within size go b (some zero) small e hyp v n h = absurd (ground (arith, h))
at_line-Within size go [] (some (suc k)) small e hyp v n h = absurd (ground (arith, h))
at_line-Within size go (kind ∷ s) (some (suc k)) small e hyp v n h =
    let (low, high) =
      reply-Within size go (kind ∷ s) kind (take k s) (k + 3) small
        (omega (arith, find_crlf-bound (kind ∷ s) (suc k) e)) hyp v n h in
    (omega (arith, low), high)

pub parse_fuel-Within :
    (size fuel : ℕ) (b : Bytes) → length b < 2 ^ 62 → Within 3 (length b) (parse_fuel size fuel b)
unfolding parse_fuel
parse_fuel-Within size zero b small = λ v n h. absurd (ground (arith, h))
parse_fuel-Within size (suc fuel) b small =
    at_line-Within size (parse_fuel size fuel) b (find_crlf b) small refl (λ s short v n here.
      let (_, up) = parse_fuel-Within size fuel s (omega (arith, short)) v n here in
      (omega arith, up))

bind-same :
    {A B : Type 0} (m : Reply A) (f g : A → Reply B) → ((a : A) → f a ≡ g a) → (m >>= f) ≡ (m >>= g)
bind-same (done a) f g h = h a
bind-same partial_reply f g h = refl
bind-same (failed e) f g h = refl
bind-same panic f g h = refl

items-same :
    (go go' : Bytes → Reply (Value × ℕ)) (b : Bytes)
    → ((s : Bytes) → length s < length b → go s ≡ go' s)
    → (count off : ℕ) → 0 < off
    → 0 < length b
    → items go count b off ≡ items go' count b off
unfolding items
items-same go go' b hyp zero off k l = refl
items-same go go' b hyp (suc count) off k l =
    rw (hyp (drop off b) (omega (arith, length-drop off b))) (
      bind-same (go' (drop off b)) _ _
        (λ found. rw (items-same go go' b hyp count (off + found.1) (omega arith) l) refl))

array_reply-same :
    (size : ℕ) (go go' : Bytes → Reply (Value × ℕ)) (b : Bytes) (after : ℕ) (count : ℤ)
    → ((s : Bytes) → length s < length b → go s ≡ go' s)
    → 0 < after
    → 0 < length b
    → array_reply size go b after count ≡ array_reply size go' b after count
unfolding array_reply
array_reply-same size go go' b after (negsuc c) hyp k l = refl
array_reply-same size go go' b after (pos c) hyp k l = rw (items-same go go' b hyp c after k l) refl

at_line-same :
    (size : ℕ) (go go' : Bytes → Reply (Value × ℕ)) (b : Bytes) (o : Option ℕ)
    → ((s : Bytes) → length s < length b → go s ≡ go' s)
    → at_line size go b o ≡ at_line size go' b o
unfolding at_line reply
at_line-same size go go' b none hyp = refl
at_line-same size go go' b (some zero) hyp = refl
at_line-same size go go' [] (some (suc k)) hyp = refl
at_line-same size go go' (kind ∷ s) (some (suc k)) hyp =
    let star : (as_int (take k s) >>= λ count. array_reply size go (kind ∷ s) (k + 3) count)
        ≡ (as_int (take k s) >>= λ count. array_reply size go' (kind ∷ s) (k + 3) count) =
      bind-same (as_int (take k s)) _ _ (λ count.
        array_reply-same size go go' (kind ∷ s) (k + 3) count hyp (omega arith) (omega arith)) in
    rw star refl

parse_fuel-same :
    (size f g : ℕ) (b : Bytes)
    → length b < f
    → length b < g
    → parse_fuel size f b ≡ parse_fuel size g b
unfolding parse_fuel
parse_fuel-same size zero g b h k = absurd (omega arith)
parse_fuel-same size (suc f) zero b h k = absurd (omega arith)
parse_fuel-same size (suc f) (suc g) b h k =
    at_line-same size (parse_fuel size f) (parse_fuel size g) b (find_crlf b)
      (λ s short. parse_fuel-same size f g s (omega (arith, short)) (omega (arith, short)))

-- Any fuel above the length of the buffer gives what `parse` gives, so that running out of fuel is
-- never what ends it.
pub parse_fuel-parse :
    (size fuel : ℕ) (b : Bytes) → length b < fuel → parse_fuel size fuel b ≡ parse size b
unfolding parse
parse_fuel-parse size fuel b h = parse_fuel-same size fuel (suc (length b)) b h (omega arith)

-- A value that is returned used at least three bytes of the buffer and no more than it holds.
pub parse-consumed :
    (size : ℕ) (b : Bytes) (v : Value) (used : ℕ)
    → length b < 2 ^ 62
    → parse size b ≡ done (v, used)
    → (3 ≤ used) × (used ≤ length b)
unfolding parse
parse-consumed size b v used small h = parse_fuel-Within size (suc (length b)) b small v used h
