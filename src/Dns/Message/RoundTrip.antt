-- ===== src/Dns/Message/RoundTrip.antt =====
-- crates/kernway-dns/src/message.rs: a name that `encode_name` writes is read back by `name`.
use kernway.Prelude.{
  ℕ, zero, suc, ◌+◌, ◌-◌, ◌/◌, ◌%◌, ◌≤◌, ◌<◌, ◌≡◌, refl, sym, ap, ◌∙◌, ◌&&◌, true, false, some,
  List, [], ◌∷◌, ◌++◌, ltb, leb, ◌==◌, if◌then◌else◌, arith, length, drop, get_elem?, Bytes,
  is_empty, All, length-append, append_assoc, take-append,
}
use kernway.Dns.Message.{
  max_name, max_label, value, slice, Walk, again, done, without_dot, encode_name, turn, label_turn,
  walk, fresh_walk, name,
}
use kernway.Dns.Message.Total.{walk-again, walk-done}
use kernway.Dns.Message.Labels.{wire_form, joined, encode_name-wire_form}

get-after : (pre : Bytes) (x : ℕ) (rest : Bytes) → get_elem? (pre ++ x ∷ rest) (length pre) ≡ some x
get-after [] x rest = refl
get-after (p ∷ pre) x rest = get-after pre x rest

drop-after : (pre : Bytes) (x : ℕ) (rest : Bytes) → drop (suc (length pre)) (pre ++ x ∷ rest) ≡ rest
drop-after [] x rest = refl
drop-after (p ∷ pre) x rest = drop-after pre x rest

slice-after :
    (pre l rest : Bytes) (x : ℕ)
    → slice (pre ++ x ∷ (l ++ rest)) (length pre + 1) (length pre + 1 + length l) ≡ some l
slice-after pre l rest x =
    let buf = pre ++ x ∷ (l ++ rest) in
    let size : length buf ≡ length pre + (1 + (length l + length rest)) =
      omega (arith, length-append pre (x ∷ (l ++ rest)), length-append l rest) in
    let within : (leb (length pre + 1) (length pre + 1 + length l)
          && leb (length pre + 1 + length l) (length buf))
        ≡ true =
      ground (arith, size) in
    let width : length pre + 1 + length l - (length pre + 1) ≡ length l = omega arith in
    let one : length pre + 1 ≡ suc (length pre) = omega arith in
    rw (within, width, one, drop-after pre x (l ++ rest), take-append l rest) refl

-- The turn that reads a label.
turn-label :
    (pre l rest : Bytes) (w : Walk)
    → 1 ≤ length l
    → length l ≤ max_label
    → w.pos ≡ length pre
    → w.name_len + (1 + length l) ≤ max_name
    → turn (pre ++ length l ∷ (l ++ rest)) w
      ≡ again (record w {
        labels = if is_empty w.labels then l else w.labels ++ b'.' ∷ l;
        name_len = w.name_len + (length l + 1);
        pos = w.pos + 1 + length l;
      })
unfolding turn label_turn
turn-label pre l rest w some_ fits at room =
    let low : (length l / 64 % 4 == 0) ≡ true = ground (arith, fits) in
    let filled : (length l == 0) ≡ false = ground (arith, some_) in
    let short : ltb max_name (w.name_len + (length l + 1)) ≡ false = ground (arith, room) in
    rw
      (
        turn,
        at,
        get-after pre (length l) (l ++ rest),
        low,
        filled,
        label_turn,
        at,
        slice-after pre l rest (length l),
        short,
        at,
      )
      refl

turn-end :
    (pre rest : Bytes) (w : Walk)
    → w.pos ≡ length pre
    → w.jumped ≡ false
    → turn (pre ++ 0 ∷ rest) w ≡ done w.labels (length pre + 1)
unfolding turn
turn-end pre rest w at stay = rw (turn, at, get-after pre 0 rest, stay, at) refl

walk-moved :
    (fuel : ℕ) (a b labels : Bytes) (w : Walk) (p q : ℕ)
    → walk fuel a w ≡ value (labels, record { buf = a; pos = p })
    → a ≡ b
    → p ≡ q
    → walk fuel b w ≡ value (labels, record { buf = b; pos = q })
walk-moved fuel a b labels w p q h e f = rw (← e, ← f) h

-- The loop over a name that was written without pointers.
walk-wire_form :
    (ls : List Bytes) (pre rest : Bytes) (w : Walk) (fuel : ℕ)
    → All (λ (l : Bytes). (1 ≤ length l) × (length l ≤ max_label)) ls
    → w.pos ≡ length pre
    → w.jumped ≡ false
    → w.name_len + length (wire_form ls) ≤ max_name
    → length (wire_form ls) < fuel
    → walk fuel (pre ++ (wire_form ls ++ 0 ∷ rest)) w
      ≡ value (
        joined w.labels ls,
        record {
          buf = pre ++ (wire_form ls ++ 0 ∷ rest);
          pos = length pre + (length (wire_form ls) + 1);
        },
      )
walk-wire_form ls pre rest w zero h at stay room f = absurd (omega arith)
walk-wire_form [] pre rest w (suc fuel) h at stay room f =
    walk-done fuel _ w w.labels (length pre + 1) (turn-end pre rest w at stay)
walk-wire_form (l ∷ ls) pre rest w (suc fuel) ((some_, fits), h) at stay room f =
    let tail = wire_form ls ++ 0 ∷ rest in
    let buf = pre ++ length l ∷ (l ++ tail) in
    let before = pre ++ length l ∷ l in
    let w' : Walk = record w {
      labels = if is_empty w.labels then l else w.labels ++ b'.' ∷ l;
      name_len = w.name_len + (length l + 1);
      pos = w.pos + 1 + length l;
    } in
    let size : length (wire_form (l ∷ ls)) ≡ 1 + (length l + length (wire_form ls)) =
      omega (arith, length-append l (wire_form ls)) in
    let grown : length before ≡ length pre + (1 + length l) =
      omega (arith, length-append pre (length l ∷ l)) in
    let inner =
      walk-wire_form ls before rest w' fuel h (omega (arith, at, grown)) stay
        (omega (arith, room, size)) (omega (arith, f, size)) in
    let all_of : before ++ tail ≡ buf = append_assoc pre (length l ∷ l) tail in
    let first = turn-label pre l tail w some_ fits at (omega (arith, room, size)) in
    let end_ : length before + (length (wire_form ls) + 1)
        ≡ length pre + (length (wire_form (l ∷ ls)) + 1) =
      omega (arith, grown, size) in
    let outer =
      walk-again fuel buf w w' first
      ∙ walk-moved fuel (before ++ tail) buf (joined w'.labels ls) w' _ _ inner all_of end_ in
    walk-moved (suc fuel) buf (pre ++ (wire_form (l ∷ ls) ++ 0 ∷ rest)) (joined w'.labels ls) w _ _
      outer (ap (λ t. pre ++ length l ∷ t) (sym (append_assoc l (wire_form ls) (0 ∷ rest)))) refl

-- A name that `encode_name` accepts takes at most 255 bytes, and `name` reads it back from any place in a
-- buffer, without its trailing dot, and leaves the cursor behind it.
pub name-encode_name :
    (s bs pre rest : Bytes)
    → encode_name s ≡ value bs
    → (length bs ≤ max_name)
      × (name (record { buf = pre ++ (bs ++ rest); pos = length pre })
          ≡ value
              (without_dot s, record { buf = pre ++ (bs ++ rest); pos = length pre + length bs }))
unfolding name
name-encode_name s bs pre rest h =
    let (ls, same, short, labels, text) = encode_name-wire_form s bs h in
    let size : length bs ≡ length (wire_form ls) + 1 =
      ap length same ∙ length-append (wire_form ls) (0 ∷ []) in
    let w = fresh_walk (length pre) in
    let run =
      walk-wire_form ls pre rest w 289 labels refl refl (omega (arith, short))
        (omega (arith, short)) in
    let buf_eq : pre ++ (wire_form ls ++ 0 ∷ rest) ≡ pre ++ (bs ++ rest) =
      ap (λ t. pre ++ t)
        (sym (ap (λ t. t ++ rest) same ∙ append_assoc (wire_form ls) (0 ∷ []) rest)) in
    (
      omega (arith, size, short),
      walk-moved 289 (pre ++ (wire_form ls ++ 0 ∷ rest)) (pre ++ (bs ++ rest)) (joined [] ls) w _ _
            run buf_eq (omega (arith, size))
          ∙ ap (λ t. value (t, record { buf = pre ++ (bs ++ rest); pos = length pre + length bs }))
              text,
    )
