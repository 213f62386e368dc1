-- ===== src/Dns/Message/Bounds.antt =====
-- crates/kernway-dns/src/message.rs: how long a decoded name is, and where the cursor is left, on any buffer.
use kernway.Prelude.{
  ℕ, zero, suc, ◌+◌, ◌-◌, ◌*◌, ◌/◌, ◌%◌, ◌≤◌, ◌<◌, ◌≡◌, ◌≢◌, refl, sym, ◌∙◌, inl, inr, ◌||◌, Bool,
  true, false, some, [], ◌∷◌, ◌++◌, ltb, leb, ◌==◌, if◌then◌else◌, arith, Bool-cases, Option-cases,
  length, get_elem?, Bytes, is_empty, length-append,
}
use kernway.Dns.Message.{
  max_name, max_jumps, Read, value, no_fuel, Reader, slice, Walk, done, label_turn, pointer_turn,
  turn, walk, fresh_walk, name,
}
use kernway.Dns.Message.Total.{
  Advances, by_label, by_pointer, turn-Advances, Turn-cases, walk-again, walk-done, walk-bad,
  length-slice,
}

get-within : (buf : Bytes) (i b : ℕ) → get_elem? buf i ≡ some b → i < length buf
get-within [] i b h = absurd (ground (arith, h))
get-within (x ∷ buf) zero b h = omega arith
get-within (x ∷ buf) (suc i) b h = omega (arith, get-within buf i b h)

-- What the loop keeps, for a name that starts at `start`.
record Within (buf : Bytes) (start : ℕ) (w : Walk) : Type 0 where
  short : w.name_len ≤ max_name
  counted : length w.labels ≤ w.name_len - 1
  behind : w.jumped ≡ false → start ≤ w.pos
  resumed : w.jumped ≡ true → (start < w.resume) × (w.resume ≤ length buf)

length-join :
    (labels label : Bytes) (n : ℕ)
    → length labels ≤ n - 1
    → length (if is_empty labels then label else labels ++ b'.' ∷ label)
      ≤ n + (length label + 1) - 1
length-join [] label n h = omega arith
length-join (x ∷ labels) label n h = omega (arith, h, length-append (x ∷ labels) (b'.' ∷ label))

Within-Advances :
    (buf : Bytes) (start : ℕ) (w w' : Walk)
    → Advances buf w w'
    → Within buf start w
    → Within buf start w'
Within-Advances buf start w w' (by_label len label some_ e room same) k = rw (← same) (record {
  short = room;
  counted = omega (
    arith,
    length-join w.labels label w.name_len k.counted,
    length-slice buf (w.pos + 1) len label e,
  );
  behind = λ j. omega (arith, k.behind j);
  resumed = λ j. k.resumed j;
})
Within-Advances buf start w w' (by_pointer target b2 back few e same) k = rw (← same) (record {
  short = k.short;
  counted = k.counted;
  behind = λ j. absurd (ground (arith, j));
  resumed = λ _. resumed w.jumped refl;
})
  where
    resumed :
        (j : Bool)
        → w.jumped ≡ j
        → (start < (if j then w.resume else w.pos + 2))
          × ((if j then w.resume else w.pos + 2) ≤ length buf)
    resumed true h = k.resumed h
    resumed false h = (omega (arith, k.behind h), omega (arith, get-within buf (w.pos + 1) b2 e))

-- The turn that ends the loop.
record Ended (buf : Bytes) (w : Walk) (labels : Bytes) (pos : ℕ) : Type 0 where
  text : labels ≡ w.labels
  inside : w.pos < length buf
  cursor : pos ≡ (if w.jumped then w.resume else w.pos + 1)

turn-Ended :
    (buf : Bytes) (w : Walk) (labels : Bytes) (pos : ℕ)
    → turn buf w ≡ done labels pos
    → Ended buf w labels pos
unfolding turn label_turn pointer_turn
turn-Ended buf w labels pos h = elim (Option-cases (get_elem? buf w.pos)) [
  | inl e ↦ let x = rw (turn, e) at h in absurd (ground (arith, x))
  | inr (len, e) ↦ elim (Bool-cases (len / 64 % 4 == 0)) [
    | inl low ↦ elim (Bool-cases (len == 0)) [
      | inl zero_ ↦
          let x = rw (turn, e, low, zero_) at h in
          record {
            text = ground (arith, x);
            inside = get-within buf w.pos len e;
            cursor = ground (arith, x);
          }
      | inr some_ ↦ let x = rw (turn, e, low, some_) at h in absurd (not_label len x)
    ]
    | inr high ↦ elim (Bool-cases (len / 64 % 4 == 3)) [
      | inl pointer ↦ let x = rw (turn, e, high, pointer) at h in absurd (not_pointer len x)
      | inr reserved ↦ let x = rw (turn, e, high, reserved) at h in absurd (ground (arith, x))
    ]
  ]
]
  where
    not_label : (len : ℕ) → label_turn buf w len ≢ done labels pos
    not_label len x = elim (Option-cases (slice buf (w.pos + 1) (w.pos + 1 + len))) [
      | inl e ↦ let y = rw (label_turn, e) at x in ground (arith, y)
      | inr (label, e) ↦ elim (Bool-cases (ltb max_name (w.name_len + (len + 1)))) [
        | inl long ↦ let y = rw (label_turn, e, long) at x in ground (arith, y)
        | inr short ↦ let y = rw (label_turn, e, short) at x in ground (arith, y)
      ]
    ]

    not_pointer : (len : ℕ) → pointer_turn buf w len ≢ done labels pos
    not_pointer len x = elim (Option-cases (get_elem? buf (w.pos + 1))) [
      | inl e ↦ let y = rw (pointer_turn, e) at x in ground (arith, y)
      | inr (b2, e) ↦
          elim (Bool-cases (ltb max_jumps (w.jumps + 1) || leb w.pos (len % 64 * 256 + b2))) [
            | inl far ↦ let y = rw (pointer_turn, e, far) at x in ground (arith, y)
            | inr back ↦ let y = rw (pointer_turn, e, back) at x in ground (arith, y)
          ]
    ]

Ended-Within :
    (buf : Bytes) (start : ℕ) (w : Walk) (labels : Bytes) (pos : ℕ)
    → Ended buf w labels pos
    → Within buf start w
    → (length labels ≤ max_name - 1) × (start < pos) × (pos ≤ length buf)
Ended-Within buf start w labels pos e k =
    rw (e.text, e.cursor)
      (omega (arith, k.counted, k.short), (cursor w.jumped refl).0, (cursor w.jumped refl).1)
  where
    cursor :
        (j : Bool)
        → w.jumped ≡ j
        → (start < (if j then w.resume else w.pos + 1))
          × ((if j then w.resume else w.pos + 1) ≤ length buf)
    cursor true h = k.resumed h
    cursor false h = (omega (arith, k.behind h), omega (arith, e.inside))

abbrev stopped : Bytes → Bytes → ℕ → Read (Bytes × Reader)
stopped buf text pos = value (text, record { buf = buf; pos = pos })

walk-zero : (buf : Bytes) (w : Walk) → walk zero buf w ≡ no_fuel
unfolding walk
walk-zero buf w = refl

walk-Within :
    (fuel : ℕ) (buf : Bytes) (start : ℕ) (w : Walk) (labels : Bytes) (r : Reader)
    → Within buf start w
    → walk fuel buf w ≡ value (labels, r)
    → (length labels ≤ max_name - 1) × (start < r.pos) × (r.pos ≤ length buf) × (r.buf ≡ buf)
walk-Within zero buf start w labels r k h =
    let x = sym (walk-zero buf w) ∙ h in absurd (ground (arith, x))
walk-Within (suc fuel) buf start w labels r k h = elim (Turn-cases (turn buf w)) [
  | inl (w', e) ↦
      walk-Within fuel buf start w' labels r
        (Within-Advances buf start w w' (turn-Advances buf w w' e) k)
        (sym (walk-again fuel buf w w' e) ∙ h)
  | inr (inl (text, pos, e)) ↦
      finish text pos (turn-Ended buf w text pos e) (sym (walk-done fuel buf w text pos e) ∙ h)
  | inr (inr (e', e)) ↦ let x = sym (walk-bad fuel buf w e' e) ∙ h in absurd (ground (arith, x))
]
  where
    finish :
        (text : Bytes) (pos : ℕ)
        → Ended buf w text pos
        → stopped buf text pos ≡ value (labels, r)
        → (length labels ≤ max_name - 1) × (start < r.pos) × (r.pos ≤ length buf) × (r.buf ≡ buf)
    finish text pos e x =
        let same : text ≡ labels = ground (arith, x) in
        let end_ : Reader = record { buf = buf; pos = pos } in
        let there : end_ ≡ r = ground (arith, x) in
        let (a, b, c) = Ended-Within buf start w text pos e k in
        rw (← same, ← there) (a, b, c, refl)

-- Whatever the buffer holds, a name that is decoded has at most 254 bytes with its dots, and the cursor is
-- left behind where the name started and within the buffer, wherever the pointers led.
pub name-bound :
    (r r' : Reader) (labels : Bytes)
    → name r ≡ value (labels, r')
    → (length labels ≤ max_name - 1) × (r.pos < r'.pos) × (r'.pos ≤ length r.buf) × (r'.buf ≡ r.buf)
unfolding name
name-bound r r' labels h =
    walk-Within 289 r.buf r.pos (fresh_walk r.pos) labels r'
      (record {
        short = omega arith;
        counted = omega arith;
        behind = λ _. omega arith;
        resumed = λ bad. absurd (ground (arith, bad));
      })
      h
