-- ===== src/Http/Parser/Framing.antt =====
-- crates/kernway-http/src/parser.rs: how a request is framed in its buffer, and how much a buffer can
-- hold before the parser decides.
use kernway.Prelude.{
  ℕ, ◌+◌, ◌≤◌, ◌≡◌, sym, ap, ◌∙◌, Option, none, some, arith, ltb, ltb→le, if◌then◌else◌, Bool-cases,
  Option-cases, inl, inr, length, take, drop, Bytes, length-take, length-drop,
}
use kernway.Http.Parser.{
  ok, err, too_large, Request, complete, incomplete, find_head_end, head_of, parse_head_inner,
  decode_head, with_body, parse_bytes, content_length, max_head_bytes, max_body_bytes,
}
use kernway.Http.Parser.HeadEnd.{bind_inv, slice-body}
use kernway.Http.Parser.Incremental.{inner-found}

-- The head's length, its limit, and that the body is what follows it, as long as its headers say.
pub record IsFramed (buf : Bytes) (r : Request) (consumed : ℕ) : Type 0 where
  pub head_end : ℕ
  pub lines : ℕ
  pub ends : find_head_end buf ≡ some (head_end, lines)
  pub head_fits : head_end ≤ max_head_bytes
  pub body_fits : content_length r.headers ≤ max_body_bytes
  pub total : consumed ≡ head_end + content_length r.headers
  pub inside : consumed ≤ length buf
  pub body : r.body ≡ take (content_length r.headers) (drop head_end buf)
  pub body_length : length r.body ≡ content_length r.headers

decode-length :
    (head : Bytes) (e : ℕ) (found : Request × ℕ × ℕ)
    → decode_head head e ≡ ok found
    → found.2 ≡ content_length found.0.headers
unfolding decode_head
decode-length head e found h = ground (arith, h)

body-complete :
    (buf : Bytes) (q r : Request) (e n consumed : ℕ)
    → with_body buf (some (q, e, n)) ≡ ok (complete r consumed)
    → (n ≤ max_body_bytes)
      × (e + n ≤ length buf)
      × (consumed ≡ e + n)
      × (r.headers ≡ q.headers)
      × (r.body ≡ take n (drop e buf))
unfolding with_body
body-complete buf q r e n consumed h = elim (Bool-cases (ltb max_body_bytes n)) [
  | inl big ↦
      let x : err too_large ≡ ok (complete r consumed) = rw (with_body, big) at h in
      absurd (ground (arith, x))
  | inr small ↦ elim (Bool-cases (ltb (length buf) (e + n))) [
    | inl short ↦
        let x : ok incomplete ≡ ok (complete r consumed) = rw (with_body, small, short) at h in
        absurd (ground (arith, x))
    | inr long ↦
        let x : ok (complete (record q { body = take n (drop e buf) }) (e + n))
            ≡ ok (complete r consumed) =
          rw (with_body, small, long, slice-body e n buf (ltb→le (length buf) (e + n) long)) at h in
        (
          ltb→le max_body_bytes n small,
          ltb→le (length buf) (e + n) long,
          ground (arith, x),
          ground (arith, x),
          ground (arith, x),
        )
  ]
]

-- A head is found only where `find_head_end` finds its end.
inner-some :
    (buf : Bytes) (found : Request × ℕ × ℕ)
    → parse_head_inner buf ≡ ok (some found)
    → (e : ℕ) × (l : ℕ) × (find_head_end buf ≡ some (e, l))
unfolding parse_head_inner head_of
inner-some buf found h = elim (Option-cases (find_head_end buf)) [
  | inr ((e, l), k) ↦ (e, l, k)
  | inl k ↦ absurd (no_head (rw (k, head_of) at h))
]
  where
    no_head :
        (if ltb max_head_bytes (length buf) then err too_large else ok none) ≡ ok (some found) → ⊥
    no_head x = ground (arith, x)

-- A request that `parse_bytes` returns is framed by the end of its head and its Content-Length,
-- within both limits and within the buffer.
pub parse_bytes-IsFramed :
    (buf : Bytes) (r : Request) (consumed : ℕ)
    → parse_bytes buf ≡ ok (complete r consumed)
    → IsFramed buf r consumed
unfolding parse_bytes with_body
parse_bytes-IsFramed buf r consumed h =
    let (found, inner, done) =
      bind_inv (parse_head_inner buf) (with_body buf) (complete r consumed) h in
    framed found inner done
  where
    framed :
        (found : Option (Request × ℕ × ℕ))
        → parse_head_inner buf ≡ ok found
        → with_body buf found ≡ ok (complete r consumed)
        → IsFramed buf r consumed
    framed none inner done = absurd (ground (arith, done))
    framed (some (q, e', n')) inner done =
        let (e, l, ends) = inner-some buf (q, e', n') inner in
        let (q', n, here, decoded, fits) = inner-found buf e l (some (q, e', n')) ends inner in
        let done' : with_body buf (some (q', e, n)) ≡ ok (complete r consumed) =
          ap (with_body buf) (sym here) ∙ done in
        let (small, inside, total, headers, body) = body-complete buf q' r e n consumed done' in
        let declared : n ≡ content_length r.headers =
          decode-length (take e buf) e (q', e, n) decoded ∙ ap content_length (sym headers) in
        record {
          head_end = e;
          lines = l;
          ends = ends;
          head_fits = fits;
          body_fits = rw (← declared) small;
          total = total ∙ ap (λ (k : ℕ). e + k) declared;
          inside = rw total inside;
          body = body ∙ ap (λ k. take k (drop e buf)) declared;
          body_length =
              ap length body
              ∙ omega (arith, length-take n (drop e buf), length-drop e buf, declared);
        }

none-short : (buf : Bytes) → head_of buf none ≡ ok none → length buf ≤ max_head_bytes
unfolding head_of
none-short buf h = ground (arith, h)

no_head-short :
    (buf : Bytes) → parse_head_inner buf ≡ ok none → length buf ≤ max_head_bytes + max_body_bytes
unfolding parse_head_inner
no_head-short buf h = elim (Option-cases (find_head_end buf)) [
  | inl k ↦ let x : head_of buf none ≡ ok none = rw k at h in omega (arith, none-short buf x)
  | inr ((e, l), k) ↦
      let (_, _, here, _, _) = inner-found buf e l none k h in absurd (ground (arith, here))
]

body-short :
    (buf : Bytes) (q : Request) (e n : ℕ)
    → e ≤ max_head_bytes
    → with_body buf (some (q, e, n)) ≡ ok incomplete
    → length buf ≤ max_head_bytes + max_body_bytes
unfolding with_body
body-short buf q e n fits h = ground (arith, h)

-- A buffer that is still incomplete is no longer than the two limits together.
pub parse_bytes-incomplete :
    (buf : Bytes) → parse_bytes buf ≡ ok incomplete → length buf ≤ max_head_bytes + max_body_bytes
unfolding parse_bytes
parse_bytes-incomplete buf h =
    let (found, inner, waits) = bind_inv (parse_head_inner buf) (with_body buf) incomplete h in
    short found inner waits
  where
    short :
        (found : Option (Request × ℕ × ℕ))
        → parse_head_inner buf ≡ ok found
        → with_body buf found ≡ ok incomplete
        → length buf ≤ max_head_bytes + max_body_bytes
    short none inner waits = no_head-short buf inner
    short (some (q, e', n')) inner waits =
        let (e, l, ends) = inner-some buf (q, e', n') inner in
        let (q', n, here, _, fits) = inner-found buf e l (some (q, e', n')) ends inner in
        body-short buf q' e n fits (rw here at waits)
