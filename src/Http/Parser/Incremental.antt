-- ===== src/Http/Parser/Incremental.antt =====
-- crates/kernway-http/src/parser.rs: parsing a stream piece by piece. A result that is not "incomplete"
-- does not change when more bytes arrive.
use kernway.Prelude.{
  ℕ, ◌+◌, ◌≤◌, ◌<◌, ◌≡◌, ◌≢◌, refl, Option, none, some, ◌++◌, arith, ltb, ltb→le, ltb→lt, le→ltb,
  Bool-cases, Option-cases, inl, inr, length, take, drop, Bytes, length-append, take-append_le,
  drop-append_le, length-drop,
}
use kernway.Http.Parser.{
  Outcome, ok, err, panic, too_large, Request, incomplete, find_head_end, head_of, parse_head_inner,
  decode_head, with_body, parse_bytes, max_head_bytes, max_body_bytes, ◌>>=◌,
}
use kernway.Http.Parser.HeadEnd.{
  inner_known, slice-body, bind_inv, find_head_end_le, find_head_end_stable, find_head_end_late,
}

-- The head that was found is found again in the longer buffer.
head-stable :
    (buf more : Bytes) (e l : ℕ)
    → find_head_end buf ≡ some (e, l)
    → parse_head_inner (buf ++ more) ≡ parse_head_inner buf
head-stable buf more e l h =
    rw
      (
        inner_known (buf ++ more) e l (find_head_end_stable buf more e l h),
        inner_known buf e l h,
        take-append_le e buf more (find_head_end_le buf e l h),
      )
      refl

-- A head that was given up stays given up.
head-too_large :
    (buf more : Bytes)
    → find_head_end buf ≡ none
    → max_head_bytes < length buf
    → parse_head_inner (buf ++ more) ≡ err too_large
unfolding parse_head_inner head_of
head-too_large buf more h big = elim (Option-cases (find_head_end (buf ++ more))) [
  | inl e ↦ rw e (ground (arith, length-append buf more))
  | inr ((end, l), e) ↦
      rw (inner_known (buf ++ more) end l e) (ground (arith, find_head_end_late buf more end l h e))
]

body-stable :
    (buf more : Bytes) (r : Request) (e n : ℕ)
    → e ≤ length buf
    → with_body buf (some (r, e, n)) ≢ ok incomplete
    → with_body (buf ++ more) (some (r, e, n)) ≡ with_body buf (some (r, e, n))
unfolding with_body
body-stable buf more r e n he done = elim (Bool-cases (ltb max_body_bytes n)) [
  | inl big ↦ rw big refl
  | inr small ↦ elim (Bool-cases (ltb (length buf) (e + n))) [
    | inl short ↦ absurd (done (rw (small, short) refl))
    | inr long ↦
        let room = ltb→le (length buf) (e + n) long in
        let longer =
          le→ltb (length (buf ++ more)) (e + n) (omega (arith, length-append buf more)) in
        let body : take n (drop e (buf ++ more)) ≡ take n (drop e buf) =
          rw (drop-append_le e buf more he)
            (take-append_le n (drop e buf) more (omega (arith, length-drop e buf))) in
        rw
          (
            small,
            long,
            longer,
            slice-body e n buf room,
            slice-body e n (buf ++ more) (omega (arith, room, length-append buf more)),
            body,
          )
          refl
  ]
]

decode-end :
    (head : Bytes) (e : ℕ) (found : Request × ℕ × ℕ) → decode_head head e ≡ ok found → found.1 ≡ e
unfolding decode_head
decode-end head e found h = ground (arith, h)

-- The head that is found ends where `find_head_end` says.
pub inner-found :
    (buf : Bytes) (e l : ℕ) (found : Option (Request × ℕ × ℕ))
    → find_head_end buf ≡ some (e, l)
    → parse_head_inner buf ≡ ok found
    → (r : Request) × (n : ℕ) × (found ≡ some (r, e, n))
      × (decode_head (take e buf) e ≡ ok (r, e, n))
      × (e ≤ max_head_bytes)
inner-found buf e l found h k = elim (Bool-cases (ltb max_head_bytes e)) [
  | inl big ↦
      let x : err too_large ≡ ok found = rw (inner_known buf e l h, big) at k in
      absurd (ground (arith, x))
  | inr small ↦
      let k' : (decode_head (take e buf) e >>= λ head. ok (some head)) ≡ ok found =
        rw (inner_known buf e l h, small) at k in
      let (got, decoded, here) =
        bind_inv (decode_head (take e buf) e) (λ head. ok (some head)) found k' in
      let at_end = decode-end (take e buf) e got decoded in
      (
        got.0,
        got.2,
        ground (arith, here, at_end),
        ground (arith, decoded, at_end),
        ltb→le max_head_bytes e small,
      )
]

found-stable :
    (buf more : Bytes) (e l : ℕ)
    → find_head_end buf ≡ some (e, l)
    → (m : Outcome (Option (Request × ℕ × ℕ))) → parse_head_inner buf ≡ m
    → (m >>= with_body buf) ≢ ok incomplete
    → (m >>= with_body (buf ++ more)) ≡ (m >>= with_body buf)
found-stable buf more e l h (err x) k done = refl
found-stable buf more e l h panic k done = refl
found-stable buf more e l h (ok found) k done =
    let (r, n, here, _, _) = inner-found buf e l found h k in
    rw here (body-stable buf more r e n (find_head_end_le buf e l h) (rw here at done))

-- Once a buffer gives a request or an error, the same buffer with any bytes behind it gives the
-- same request, with the same count of consumed bytes, or the same error.
pub parse_bytes-append :
    (buf more : Bytes)
    → parse_bytes buf ≢ ok incomplete
    → parse_bytes (buf ++ more) ≡ parse_bytes buf
unfolding parse_bytes
parse_bytes-append buf more done = elim (Option-cases (find_head_end buf)) [
  | inr ((e, l), h) ↦
      rw (head-stable buf more e l h) (found-stable buf more e l h (parse_head_inner buf) refl done)
  | inl h ↦ elim (Bool-cases (ltb max_head_bytes (length buf))) [
    | inl big ↦
        let here : parse_head_inner buf ≡ err too_large =
          unfold parse_head_inner head_of in rw (h, big) refl in
        rw (head-too_large buf more h (ltb→lt max_head_bytes (length buf) big), here) refl
    | inr small ↦
        let here : parse_head_inner buf ≡ ok none =
          unfold parse_head_inner head_of in rw (h, small) refl in
        absurd (done (rw here (unfold with_body in refl)))
  ]
]
