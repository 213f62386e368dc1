-- ===== src/Dns/Message/Labels.antt =====
-- crates/kernway-dns/src/message.rs: what `encode_name` writes for a name.
use kernway.Prelude.{
  ℕ, ◌+◌, ◌≤◌, ◌≡◌, refl, sym, ap, ◌∙◌, inl, inr, ◌||◌, true, false, List, [], ◌∷◌, ◌++◌, ltb, ◌==◌,
  ==_iff, if◌then◌else◌, arith, Bool-cases, length, drop, Bytes, is_empty, split, push_head, All,
  length-append, append_assoc, append-nil,
}
use kernway.Dns.Message.{
  max_name, max_label, Read, value, failed, panicked, no_fuel, map_read, without_dot, encode_labels,
  encode_name,
}

-- The labels on the wire_form, and in the decoded name.
abbrev pub wire_form : List Bytes → Bytes
wire_form [] = []
wire_form (l ∷ ls) = length l ∷ (l ++ wire_form ls)

abbrev dotted : List Bytes → Bytes
dotted [] = []
dotted (l ∷ ls) = b'.' ∷ (l ++ dotted ls)

abbrev pub joined : Bytes → List Bytes → Bytes
joined acc [] = acc
joined acc (l ∷ ls) = joined (if is_empty acc then l else acc ++ b'.' ∷ l) ls

joined-dotted :
    (acc : Bytes) (ls : List Bytes) → is_empty acc ≡ false → joined acc ls ≡ acc ++ dotted ls
joined-dotted acc [] h = sym (append-nil acc)
joined-dotted [] (l ∷ ls) h = absurd (ground (arith, h))
joined-dotted (a ∷ acc) (l ∷ ls) h =
    joined-dotted (a ∷ acc ++ b'.' ∷ l) ls refl ∙ append_assoc (a ∷ acc) (b'.' ∷ l) (dotted ls)

tail-eq : (a : ℕ) (s t : Bytes) → a ∷ s ≡ a ∷ t → s ≡ t
tail-eq a s t h = ap (drop 1) h

dotted-push_head :
    (x : ℕ) (ls : List Bytes) (s : Bytes)
    → dotted ls ≡ b'.' ∷ s
    → dotted (push_head x ls) ≡ b'.' ∷ x ∷ s
dotted-push_head x [] s h = absurd (ground (arith, ap length h))
dotted-push_head x (l ∷ ls) s h = ap (λ t. b'.' ∷ x ∷ t) (tail-eq b'.' (l ++ dotted ls) s h)

dotted-split : (s : Bytes) → dotted (split b'.' s) ≡ b'.' ∷ s
unfolding split
dotted-split [] = refl
dotted-split (x ∷ xs) = elim (Bool-cases (x == b'.')) [
  | inl e ↦ let dot = (==_iff x b'.').0 e in rw e (cc (dot, dotted-split xs))
  | inr e ↦ rw e (dotted-push_head x (split b'.' xs) xs (dotted-split xs))
]

joined-split :
    (s l : Bytes) (ls : List Bytes)
    → split b'.' s ≡ l ∷ ls
    → is_empty l ≡ false
    → joined [] (l ∷ ls) ≡ s
joined-split s l ls h e =
    joined-dotted l ls e ∙ tail-eq b'.' (l ++ dotted ls) s (ap dotted (sym h) ∙ dotted-split s)

map_read-value :
    {A B : Type 0} (f : A → B) (m : Read A) (b : B)
    → map_read f m ≡ value b
    → (a : A) × (m ≡ value a) × (f a ≡ b)
map_read-value f (value a) b h = (a, refl, ground (arith, h))
map_read-value f (failed e) b h = absurd (ground (arith, h))
map_read-value f panicked b h = absurd (ground (arith, h))
map_read-value f no_fuel b h = absurd (ground (arith, h))

-- What is written, and the limits that it keeps.
record IsWritten (total : ℕ) (ls : List Bytes) (bs : Bytes) : Type 0 where
  same : bs ≡ wire_form ls
  short : total + length (wire_form ls) ≤ max_name
  labels : All (λ (l : Bytes). (1 ≤ length l) × (length l ≤ max_label)) ls

IsWritten-cons :
    (total : ℕ) (l : Bytes) (ls : List Bytes) (rest bs : Bytes)
    → length l ∷ (l ++ rest) ≡ bs
    → is_empty l ≡ false
    → length l ≤ max_label
    → IsWritten (total + (1 + length l)) ls rest
    → IsWritten total (l ∷ ls) bs
IsWritten-cons total l ls rest bs e some_ fits w = record {
  same = sym e ∙ ap (λ t. length l ∷ (l ++ t)) w.same;
  short = omega (arith, w.short, length-append l (wire_form ls));
  labels = ((filled l some_, fits), w.labels);
}
  where
    filled : (l : Bytes) → is_empty l ≡ false → 1 ≤ length l
    filled [] h = absurd (ground (arith, h))
    filled (x ∷ l) h = omega arith

encode_labels-IsWritten :
    (total : ℕ) (ls : List Bytes) (bs : Bytes)
    → total ≤ max_name
    → encode_labels total ls ≡ value bs
    → IsWritten total ls bs
unfolding encode_labels
encode_labels-IsWritten total [] bs h e = record {
  same = ground (arith, e);
  short = omega (arith, h);
  labels = tt;
}
encode_labels-IsWritten total (l ∷ ls) bs h e =
    elim (Bool-cases (is_empty l || ltb max_label (length l))) [
      | inl wrong ↦ let x = rw (encode_labels, wrong) at e in absurd (ground (arith, x))
      | inr right ↦ elim (Bool-cases (ltb max_name (total + (1 + length l)))) [
        | inl long ↦ let x = rw (encode_labels, right, long) at e in absurd (ground (arith, x))
        | inr fits ↦
            let later = encode_labels (total + (1 + length l)) ls in
            let (rest, run, same) =
              map_read-value (λ t. length l ∷ (l ++ t)) later bs
                (rw (encode_labels, right, fits) at e) in
            let room : total + (1 + length l) ≤ max_name = ground (arith, fits) in
            IsWritten-cons total l ls rest bs same (ground (arith, right)) (ground (arith, right))
              (encode_labels-IsWritten (total + (1 + length l)) ls rest room run)
      ]
    ]

joined-labels :
    (s : Bytes) (ls : List Bytes)
    → split b'.' s ≡ ls
    → All (λ (l : Bytes). (1 ≤ length l) × (length l ≤ max_label)) ls
    → joined [] ls ≡ s
joined-labels s [] e h = absurd (ground (arith, ap length (sym (dotted-split s) ∙ ap dotted e)))
joined-labels s ([] ∷ ls) e ((some_, _), h) = absurd (omega arith)
joined-labels s ((x ∷ l) ∷ ls) e h = joined-split s (x ∷ l) ls e refl

-- What `encode_name` writes is the labels and a zero, within the limit.
pub encode_name-wire_form :
    (s bs : Bytes)
    → encode_name s ≡ value bs
    → (ls : List Bytes) × (bs ≡ wire_form ls ++ 0 ∷ [])
      × (1 + length (wire_form ls) ≤ max_name)
      × All (λ (l : Bytes). (1 ≤ length l) × (length l ≤ max_label)) ls
      × (joined [] ls ≡ without_dot s)
unfolding encode_name
encode_name-wire_form s bs h = elim (Bool-cases (is_empty (without_dot s))) [
  | inl e ↦
      let x : value (0 ∷ []) ≡ value bs = rw (encode_name, e) at h in
      ([], ground (arith, x), omega arith, tt, nothing (without_dot s) e)
  | inr e ↦
      let ls = split b'.' (without_dot s) in
      let (inner, run, same) =
        map_read-value (λ bs. bs ++ 0 ∷ []) (encode_labels 1 ls) bs (rw (encode_name, e) at h) in
      let w = encode_labels-IsWritten 1 ls inner (omega arith) run in
      (
        ls,
        sym same ∙ ap (λ t. t ++ 0 ∷ []) w.same,
        w.short,
        w.labels,
        joined-labels (without_dot s) ls refl w.labels,
      )
]
  where
    nothing : (t : Bytes) → is_empty t ≡ true → [] ≡ t
    nothing [] e = refl
    nothing (x ∷ t) e = absurd (ground (arith, e))
